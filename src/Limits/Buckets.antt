-- ===== src/Limits/Buckets.antt =====
-- The rows of `cloud_rotation_buckets` of one vendor account and service, and what a rule reads
-- from them. Times are in milliseconds.
use master_dns.Common.{
  ℕ, ◌+◌, ◌-◌, ◌*◌, ◌/◌, Bool, true, false, ◌&&◌, Option, none, some, String, List, [], ◌∷◌, filter,
  length, get_elem?, ltb, if◌then◌else◌, ◌==◌,
}
use master_dns.Common.Text.{str_eq}
use master_dns.Limits.Rules.{Rule, RuleKind, token_bucket, sliding_window, write_units}

pub record Row : Type 0 where
  pub rule_id : String
  pub region : Option String
  pub debt : ℕ
  pub events : List ℕ
  pub updated_at : ℕ
  pub cooldown_until : Option ℕ
  pub throttle_count : ℕ

abbrev pub same_region : Option String → Option String → Bool
same_region none none = true
same_region (some a) (some b) = str_eq a b
same_region _ _ = false

-- Equality of `bucketKey`, within one identity.
abbrev pub has_key : String → Option String → Row → Bool
has_key rule_id region row = str_eq row.rule_id rule_id && same_region row.region region

unfoldable pub find_row : String → Option String → List Row → Option Row
find_row rule_id region [] = none
find_row rule_id region (row ∷ rows) =
    if has_key rule_id region row then some row else find_row rule_id region rows

-- The upsert on the key. `change` is the columns that it sets.
unfoldable pub upsert : Row → (change : Row → Row) → List Row → List Row
upsert fresh change [] = fresh ∷ []
upsert fresh change (row ∷ rows) =
    let rest = upsert fresh change rows in
    if has_key fresh.rule_id fresh.region row then change row ∷ rows else row ∷ rest

pub record LiveState : Type 0 where
  pub debt : ℕ
  pub events : List ℕ

abbrev pub units_per_ms : RuleKind → ℕ
units_per_ms (token_bucket units) = units
units_per_ms (sliding_window seconds) = 0

abbrev pub stored_debt : Option Row → ℕ
stored_debt none = 0
stored_debt (some row) = row.debt

abbrev pub stored_events : Option Row → List ℕ
stored_events none = []
stored_events (some row) = row.events

-- Without a row no time has elapsed.
abbrev pub elapsed_ms : Option Row → ℕ → ℕ
elapsed_ms none now = 0
elapsed_ms (some row) now = now - row.updated_at

abbrev pub live_events : RuleKind → List ℕ → ℕ → List ℕ
live_events (token_bucket units) events now = []
live_events (sliding_window seconds) events now =
    filter (λ event. ltb now (event + seconds * 1000)) events

unfoldable pub live_state : Rule → Option Row → (now : ℕ) → LiveState
live_state rule row now = record {
  debt = stored_debt row - elapsed_ms row now * units_per_ms rule.kind;
  events = live_events rule.kind (stored_events row) now;
}

-- The end of the window of the event that must leave it, or a minute.
abbrev pub window_retry : (seconds now : ℕ) → List ℕ → (excess : ℕ) → ℕ
window_retry seconds now events excess =
    if excess == 0 then now + 60000 else after (get_elem? events (excess - 1))
  where
    after : Option ℕ → ℕ
    after none = now + 60000
    after (some event) = event + seconds * 1000

abbrev pub kind_retry : RuleKind → LiveState → (capacity outstanding required now : ℕ) → ℕ
kind_retry (token_bucket units) state capacity outstanding required now =
    now + (state.debt + required * write_units - capacity * write_units + units - 1) / units
kind_retry (sliding_window seconds) state capacity outstanding required now =
    window_retry seconds now state.events (length state.events + outstanding + required - capacity)

unfoldable pub retry_time : Rule → LiveState → (outstanding required now : ℕ) → ℕ
retry_time rule state outstanding required now =
    kind_retry rule.kind state rule.capacity outstanding required now
