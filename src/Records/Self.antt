-- ===== src/Records/Self.antt =====
-- A record matches itself, so that a write that took effect verbatim is not repeated.
use master_dns.Common.{
  ℕ, ◌≡◌, refl, sym, Bool, true, false, not, ◌&&◌, Option, none, some, String, ◌==◌, if◌then◌else◌,
  arith, Bool-cases, inl, inr,
}
use master_dns.Common.Text.{str_eq, str_eq_iff}
use master_dns.Records.Values.{
  Value, undefined, null, boolean, number, text, array, object, Items, nil, cons, Fields, end,
  field, lookup, deep_equal, equal_items, fields_in,
}
use master_dns.Records.Match.{
  AliyunStatus, enable, disable, normalized_equal, normalize_status, normalize_name, status_equal,
  same_priority, DnsRecordInput, dns_record_matches, provider_metadata_equal, metadata_matches,
  expected_ttl,
}

abbrev pub lacks : String → Fields → Bool
lacks key end = true
lacks key (field name value rest) = not (str_eq name key) && lacks key rest

-- No object has two fields of one key, as an object of the language never has.
abbrev mutual
  pub IsDistinct : Value → Type 0
  IsDistinct (array items) = AreDistinct items
  IsDistinct (object fields) = HasDistinctKeys fields
  IsDistinct _ = Unit

  pub AreDistinct : Items → Type 0
  AreDistinct nil = Unit
  AreDistinct (cons item items) = IsDistinct item × AreDistinct items

  pub HasDistinctKeys : Fields → Type 0
  HasDistinctKeys end = Unit
  HasDistinctKeys (field key value rest) =
      (lacks key rest ≡ true) × IsDistinct value × HasDistinctKeys rest

-- Each field of the first is what the second has on its key.
abbrev pub Within : Fields → Fields → Type 0
Within end whole = Unit
Within (field key value rest) whole = (lookup key whole ≡ value) × Within rest whole

pub same : (key : String) → str_eq key key ≡ true
same key = (str_eq_iff key key).1 refl

if_same : (b : Bool) → (if b then true else true) ≡ true
if_same b = ground arith

pub same_number : (n : ℕ) → (n == n) ≡ true
same_number n = ground arith

pub same_priority_refl : (priority : Option ℕ) → same_priority priority priority ≡ true
same_priority_refl none = refl
same_priority_refl (some n) = same_number n

lacks-other :
    (name key : String) (rest : Fields)
    → (not (str_eq name key) && lacks key rest) ≡ true
    → str_eq key name ≡ false
lacks-other name key rest h = elim (Bool-cases (str_eq key name)) [
  | inl e ↦ absurd (ground (arith, (str_eq_iff name key).1 (sym ((str_eq_iff key name).0 e))))
  | inr e ↦ e
]

lacks-rest :
    (name key : String) (rest : Fields)
    → (not (str_eq name key) && lacks key rest) ≡ true
    → lacks key rest ≡ true
lacks-rest name key rest h = ground arith

Within-field :
    (fields whole : Fields) (key : String) (value : Value)
    → lacks key fields ≡ true
    → Within fields whole
    → Within fields (field key value whole)
Within-field end whole key value absent within = tt
Within-field (field name other rest) whole key value absent (there, within) = (
  rw (lacks-other name key rest absent) there,
  Within-field rest whole key value (lacks-rest name key rest absent) within,
)

pub Within-refl : (fields : Fields) → HasDistinctKeys fields → Within fields fields
Within-refl end distinct = tt
Within-refl (field key value rest) (absent, own, distinct) =
    (rw (same key) refl, Within-field rest rest key value absent (Within-refl rest distinct))

module _ (index_key : ℕ → String) where
  mutual
    unfolding deep_equal

    pub deep_equal_refl :
        (value : Value) → IsDistinct value → deep_equal index_key value value ≡ true
    deep_equal_refl undefined d = refl
    deep_equal_refl null d = refl
    deep_equal_refl (boolean true) d = refl
    deep_equal_refl (boolean false) d = refl
    deep_equal_refl (number n) d = ground arith
    deep_equal_refl (text s) d = same s
    deep_equal_refl (array items) d = equal_items_refl items d
    deep_equal_refl (object fields) d =
        rw (fields_in-Within fields fields d (Within-refl fields d)) (ground arith)

    equal_items_refl :
        (items : Items) → AreDistinct items → equal_items index_key items items ≡ true
    equal_items_refl nil d = refl
    equal_items_refl (cons item items) (own, d) =
        rw (deep_equal_refl item own, equal_items_refl items d) refl

    fields_in-Within :
        (fields whole : Fields)
        → HasDistinctKeys fields
        → Within fields whole
        → fields_in index_key fields whole ≡ true
    fields_in-Within end whole d within = refl
    fields_in-Within (field key value rest) whole (absent, own, d) (there, within) =
        rw (there, deep_equal_refl value own, fields_in-Within rest whole d within) refl

module _ (to_lower strip_dot : String → String) (index_key : ℕ → String) where
  normalized_refl :
      (status : Option AliyunStatus)
      → normalized_equal to_lower strip_dot index_key status status true ≡ true
  normalized_refl none = refl
  normalized_refl (some enable) = refl
  normalized_refl (some disable) = refl

  status_equal_refl :
      (value : Value) → status_equal to_lower strip_dot index_key value value true ≡ true
  status_equal_refl (text s) = normalized_refl (normalize_status to_lower strip_dot index_key s)
  status_equal_refl undefined = refl
  status_equal_refl null = refl
  status_equal_refl (boolean b) = refl
  status_equal_refl (number n) = refl
  status_equal_refl (array items) = refl
  status_equal_refl (object fields) = refl

  status_refl :
      (key : String) (value : Value)
      → IsDistinct value
      → provider_metadata_equal to_lower strip_dot index_key key value value ≡ true
  unfolding provider_metadata_equal
  status_refl key value d =
      rw (deep_equal_refl index_key value d, status_equal_refl value)
        (if_same (str_eq key "status"))

  pub metadata-Within :
      (fields whole : Fields)
      → HasDistinctKeys fields
      → Within fields whole
      → metadata_matches to_lower strip_dot index_key whole fields ≡ true
  metadata-Within end whole d within = refl
  metadata-Within (field key value rest) whole (absent, own, d) (there, within) =
      rw (there, status_refl key value own, metadata-Within rest whole d within) (ground arith)

  pub dns_record_matches_refl :
      (record_ : DnsRecordInput)
      → HasDistinctKeys record_.provider_metadata
      → expected_ttl record_ ≡ record_.ttl
      → dns_record_matches to_lower strip_dot index_key record_ record_ ≡ true
  unfolding dns_record_matches
  dns_record_matches_refl r d ttl =
      rw
        (
          same r.type,
          same (normalize_name to_lower strip_dot index_key r.name),
          same r.content,
          ttl,
          same_number r.ttl,
          same_priority_refl r.priority,
          metadata-Within r.provider_metadata r.provider_metadata d
              (Within-refl r.provider_metadata d),
        )
        refl
