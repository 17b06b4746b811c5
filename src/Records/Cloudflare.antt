-- ===== src/Records/Cloudflare.antt =====
-- packages/providers/src/cloudflare.ts: a record as it is sent to Cloudflare and as it is read back.
use master_dns.Common.{ℕ, Bool, Option, none, some, String, if◌then◌else◌, get_or}
use master_dns.Common.Text.{str_eq}
use master_dns.Records.Values.{
  Value, boolean, text, array, Items, nil, cons, Fields, end, field, lookup,
}
use master_dns.Records.Match.{DnsRecordInput, is_proxied}

pub record CloudflareRecordShape : Type 0 where
  pub id : String
  pub type : String
  pub name : String
  pub content : Option String
  pub ttl : ℕ
  pub priority : Option ℕ
  pub proxied : Option Bool
  pub proxiable : Option Bool
  pub comment : Option String
  pub tags : Option Items
  pub modified_on : Option String

-- A record as a provider's adapter hands it on.
pub record ProviderRecord : Type 0 where
  pub external_id : String
  pub zone_external_id : String
  pub input : DnsRecordInput
  pub modified_at : Option ℕ

abbrev pub with_field : String → Option Value → Fields → Fields
with_field key none rest = rest
with_field key (some value) rest = field key value rest

abbrev pub boolean_value : Option Bool → Option Value
boolean_value none = none
boolean_value (some b) = some (boolean b)

abbrev pub text_value : Option String → Option Value
text_value none = none
text_value (some s) = some (text s)

abbrev pub array_value : Option Items → Option Value
array_value none = none
array_value (some items) = some (array items)

-- `providerMetadata`, by the four assignments.
abbrev pub cloudflare_metadata : CloudflareRecordShape → Fields
cloudflare_metadata r = with_field "proxied" (boolean_value r.proxied) (
    with_field "proxiable" (boolean_value r.proxiable)
      (with_field "comment" (text_value r.comment) (with_field "tags" (array_value r.tags) end)))

-- `data_text` is the text of the record's data, for a record without content, and `date_of` is
-- `new Date` of a text.
module _ (data_text : String) (date_of : String → ℕ) where
  abbrev pub modified : Option String → Option ℕ
  modified none = none
  modified (some date) = if str_eq date "" then none else some (date_of date)

  unfoldable pub normalize_cloudflare_record : CloudflareRecordShape → String → ProviderRecord
  normalize_cloudflare_record r zone_external_id = record {
    external_id = r.id;
    zone_external_id = zone_external_id;
    input = record {
      type = r.type;
      name = r.name;
      content = get_or r.content data_text;
      ttl = r.ttl;
      priority = r.priority;
      provider_metadata = cloudflare_metadata r;
    };
    modified_at = modified r.modified_on;
  }

pub record CloudflareInput : Type 0 where
  pub zone_id : String
  pub type : String
  pub name : String
  pub content : String
  pub ttl : ℕ
  pub priority : Option ℕ
  pub proxied : Option Bool
  pub comment : Option String
  pub tags : Option Items

abbrev pub as_boolean : Value → Option Bool
as_boolean (boolean b) = some b
as_boolean _ = none

abbrev pub as_text : Value → Option String
as_text (text s) = some s
as_text _ = none

-- The texts among the items.
abbrev pub only_texts : Items → Items
only_texts nil = nil
only_texts (cons (text s) items) = cons (text s) (only_texts items)
only_texts (cons _ items) = only_texts items

abbrev pub as_texts : Value → Option Items
as_texts (array items) = some (only_texts items)
as_texts _ = none

unfoldable pub to_cloudflare_input : String → DnsRecordInput → CloudflareInput
to_cloudflare_input zone_id input = record {
  zone_id = zone_id;
  type = input.type;
  name = input.name;
  content = input.content;
  ttl = if is_proxied (lookup "proxied" input.provider_metadata) then 1 else input.ttl;
  priority = input.priority;
  proxied = as_boolean (lookup "proxied" input.provider_metadata);
  comment = as_text (lookup "comment" input.provider_metadata);
  tags = as_texts (lookup "tags" input.provider_metadata);
}
