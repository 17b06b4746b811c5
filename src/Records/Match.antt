-- ===== src/Records/Match.antt =====
-- `dnsRecordMatches` and `normalizeProviderMetadata`.
use master_dns.Common.{
  ℕ, Bool, true, false, ◌&&◌, ◌||◌, Option, none, some, String, ◌==◌, if◌then◌else◌,
}
use master_dns.Common.Text.{str_eq}
use master_dns.Records.Values.{
  Value, undefined, boolean, text, Fields, end, field, lookup, deep_equal,
}

pub record DnsRecordInput : Type 0 where
  pub type : String
  pub name : String
  pub content : String
  pub ttl : ℕ
  pub priority : Option ℕ
  pub provider_metadata : Fields

pub data AliyunStatus : Type 0 where
  enable disable : AliyunStatus

abbrev pub same_priority : Option ℕ → Option ℕ → Bool
same_priority none none = true
same_priority (some a) (some b) = a == b
same_priority _ _ = false

abbrev pub is_proxied : Value → Bool
is_proxied (boolean proxied) = proxied
is_proxied _ = false

abbrev pub expected_ttl : DnsRecordInput → ℕ
expected_ttl expected =
    if is_proxied (lookup "proxied" expected.provider_metadata) then 1 else expected.ttl

abbrev pub is_undefined : Value → Bool
is_undefined undefined = true
is_undefined _ = false

abbrev pub same_status : Option AliyunStatus → Option AliyunStatus → Bool
same_status (some enable) (some enable) = true
same_status (some disable) (some disable) = true
same_status _ _ = false

-- `toLowerCase` and `String(index)` of the language; `strip_dot` is `replace(/\.$/, "")`.
module _ (to_lower : String → String) (strip_dot : String → String) (index_key : ℕ → String) where
  abbrev pub normalize_name : String → String
  normalize_name name = strip_dot (to_lower name)

  unfoldable pub normalize_status : String → Option AliyunStatus
  normalize_status value = named (to_lower value)
    where
      named : String → Option AliyunStatus
      named normalized =
          if str_eq normalized "enable" || str_eq normalized "enabled"
          then some enable
          else if str_eq normalized "disable" || str_eq normalized "disabled"
          then some disable
          else none

  abbrev pub normalized_equal : Option AliyunStatus → Option AliyunStatus → Bool → Bool
  normalized_equal none none otherwise = otherwise
  normalized_equal actual expected otherwise = same_status actual expected

  abbrev pub status_equal : Value → Value → Bool → Bool
  status_equal (text actual) (text expected) otherwise =
      normalized_equal (normalize_status actual) (normalize_status expected) otherwise
  status_equal _ _ otherwise = otherwise

  unfoldable pub provider_metadata_equal : String → Value → Value → Bool
  provider_metadata_equal key actual expected =
      let equal = deep_equal index_key actual expected in
      if str_eq key "status" then status_equal actual expected equal else equal

  abbrev pub metadata_matches : Fields → Fields → Bool
  metadata_matches actual end = true
  metadata_matches actual (field key value rest) =
      (is_undefined value || provider_metadata_equal key (lookup key actual) value)
      && metadata_matches actual rest

  unfoldable pub dns_record_matches : (actual expected : DnsRecordInput) → Bool
  dns_record_matches actual expected =
      str_eq actual.type expected.type
      && str_eq (normalize_name actual.name) (normalize_name expected.name)
      && str_eq actual.content expected.content
      && (actual.ttl == expected_ttl expected)
      && same_priority actual.priority expected.priority
      && metadata_matches actual.provider_metadata expected.provider_metadata

  abbrev pub status_text : AliyunStatus → String
  status_text enable = "Enable"
  status_text disable = "Disable"

  -- `{ ...metadata, status }`, where the key is there.
  abbrev pub set_status : String → Fields → Fields
  set_status status end = end
  set_status status (field key value rest) =
      let later = set_status status rest in
      if str_eq key "status" then field key (text status) rest else field key value later

  abbrev pub with_status : Option AliyunStatus → Fields → Fields
  with_status none metadata = metadata
  with_status (some status) metadata = set_status (status_text status) metadata

  abbrev pub status_of : Value → Option AliyunStatus
  status_of (text value) = normalize_status value
  status_of _ = none

  unfoldable pub normalize_provider_metadata : Fields → Fields
  normalize_provider_metadata metadata = with_status (status_of (lookup "status" metadata)) metadata
