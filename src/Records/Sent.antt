-- ===== src/Records/Sent.antt =====
-- A record that Cloudflare answers as it was sent passes the check after the write.
use master_dns.Common.{ℕ, ◌≡◌, refl, sym, ap, subst, Bool, true, Option, none, some, String}
use master_dns.Records.Values.{
  Value, undefined, null, number, object, boolean, text, array, Items, nil, cons, Fields, end,
  field, lookup,
}
use master_dns.Records.Match.{DnsRecordInput, dns_record_matches, expected_ttl, normalize_name}
use master_dns.Records.Self.{
  same, same_number, same_priority_refl, HasDistinctKeys, Within, Within-refl, metadata-Within,
}
use master_dns.Records.Cloudflare.{
  CloudflareRecordShape, CloudflareInput, with_field, boolean_value, text_value, array_value,
  normalize_cloudflare_record, as_boolean, as_text, only_texts, as_texts, to_cloudflare_input,
}

abbrev pub AreTexts : Items → Type 0
AreTexts nil = Unit
AreTexts (cons (text s) items) = AreTexts items
AreTexts (cons _ items) = ⊥

-- A setting that Cloudflare knows.
abbrev pub IsKnown : String → Value → Type 0
IsKnown key (boolean b) = key ≡ "proxied"
IsKnown key (text s) = key ≡ "comment"
IsKnown key (array items) = (key ≡ "tags") × AreTexts items
IsKnown key _ = ⊥

abbrev pub AreKnown : Fields → Type 0
AreKnown end = Unit
AreKnown (field key value rest) = IsKnown key value × AreKnown rest

-- The answer to a write: the fields as they were sent.
abbrev pub as_sent : String → Option Bool → Option String → CloudflareInput → CloudflareRecordShape
as_sent id proxiable modified_on sent = record {
  id = id;
  type = sent.type;
  name = sent.name;
  content = some sent.content;
  ttl = sent.ttl;
  priority = sent.priority;
  proxied = sent.proxied;
  proxiable = proxiable;
  comment = sent.comment;
  tags = sent.tags;
  modified_on = modified_on;
}

only_texts_lem : (items : Items) → AreTexts items → only_texts items ≡ items
only_texts_lem nil h = refl
only_texts_lem (cons (text s) items) h = ap (cons (text s)) (only_texts_lem items h)
only_texts_lem (cons (boolean b) items) h = absurd h
only_texts_lem (cons undefined items) h = absurd h
only_texts_lem (cons null items) h = absurd h
only_texts_lem (cons (number n) items) h = absurd h
only_texts_lem (cons (array a) items) h = absurd h
only_texts_lem (cons (object o) items) h = absurd h

abbrev built : Option Bool → Option Bool → Option String → Option Items → Fields
built p x c t = with_field "proxied" (boolean_value p) (
    with_field "proxiable" (boolean_value x)
      (with_field "comment" (text_value c) (with_field "tags" (array_value t) end)))

lookup_comment :
    (p x : Option Bool) (c : String) (t : Option Items)
    → lookup "comment" (built p x (some c) t) ≡ text c
lookup_comment none none c t = refl
lookup_comment none (some x) c t = refl
lookup_comment (some p) none c t = refl
lookup_comment (some p) (some x) c t = refl

lookup_tags :
    (p x : Option Bool) (c : Option String) (t : Items)
    → lookup "tags" (built p x c (some t)) ≡ array t
lookup_tags none none none t = refl
lookup_tags none none (some c) t = refl
lookup_tags none (some x) none t = refl
lookup_tags none (some x) (some c) t = refl
lookup_tags (some p) none none t = refl
lookup_tags (some p) none (some c) t = refl
lookup_tags (some p) (some x) none t = refl
lookup_tags (some p) (some x) (some c) t = refl

module _ (metadata : Fields) (x : Option Bool) where
  abbrev rebuilt : Fields
  rebuilt =
      built (as_boolean (lookup "proxied" metadata)) x (as_text (lookup "comment" metadata))
        (as_texts (lookup "tags" metadata))

  proxied_kept :
      (b : Bool) → lookup "proxied" metadata ≡ boolean b → lookup "proxied" rebuilt ≡ boolean b
  proxied_kept b there = rw there refl

  comment_kept :
      (s : String) → lookup "comment" metadata ≡ text s → lookup "comment" rebuilt ≡ text s
  comment_kept s there = rw there (
      lookup_comment (as_boolean (lookup "proxied" metadata)) x s
        (as_texts (lookup "tags" metadata)))

  tags_kept :
      (items : Items)
      → AreTexts items
      → lookup "tags" metadata ≡ array items
      → lookup "tags" rebuilt ≡ array items
  tags_kept items texts there =
      rw (there, only_texts_lem items texts)
        (lookup_tags (as_boolean (lookup "proxied" metadata)) x
          (as_text (lookup "comment" metadata)) items)

  Kept : String → Value → Type 0
  Kept key value = lookup key metadata ≡ value → lookup key rebuilt ≡ value

  known_lookup : (key : String) (value : Value) → IsKnown key value → Kept key value
  unfolding Kept
  known_lookup key (boolean b) known = subst (λ k. Kept k (boolean b)) (sym known) (proxied_kept b)
  known_lookup key (text s) known = subst (λ k. Kept k (text s)) (sym known) (comment_kept s)
  known_lookup key (array items) (known, texts) =
      subst (λ k. Kept k (array items)) (sym known) (tags_kept items texts)
  known_lookup key undefined known = absurd known
  known_lookup key null known = absurd known
  known_lookup key (number n) known = absurd known
  known_lookup key (object o) known = absurd known

  known-Within :
      (fields : Fields) → AreKnown fields → Within fields metadata → Within fields rebuilt
  unfolding Kept
  known-Within end known within = tt
  known-Within (field key value rest) (own, known) (there, within) =
      (known_lookup key value own there, known-Within rest known within)

module _ (to_lower strip_dot : String → String) (index_key : ℕ → String) where
  -- A record whose metadata has no key twice, and only the settings proxied, comment and tags, each
  -- of its type, is sent to Cloudflare: of an answer with the fields as they were sent, whatever its
  -- id, its date and whether it can be proxied, the normalised record matches the one wanted.
  pub normalize_cloudflare_record-to_cloudflare_input :
      (data_text : String) (date_of : String → ℕ) (zone id : String) (proxiable : Option Bool)
      (modified_on : Option String) (input : DnsRecordInput)
      → HasDistinctKeys input.provider_metadata
      → AreKnown input.provider_metadata
      → dns_record_matches to_lower strip_dot index_key
          (normalize_cloudflare_record data_text date_of
            (as_sent id proxiable modified_on (to_cloudflare_input zone input))
            zone).input
          input
        ≡ true
  unfolding normalize_cloudflare_record to_cloudflare_input dns_record_matches
  normalize_cloudflare_record-to_cloudflare_input data_text date_of zone id proxiable modified_on
        input distinct known =
      rw
        (
          same input.type,
          same (normalize_name to_lower strip_dot index_key input.name),
          same input.content,
          same_number (expected_ttl input),
          same_priority_refl input.priority,
          metadata-Within to_lower strip_dot index_key input.provider_metadata
              (rebuilt input.provider_metadata proxiable) distinct
              (known-Within input.provider_metadata proxiable input.provider_metadata known
                (Within-refl input.provider_metadata distinct)),
        )
        refl
