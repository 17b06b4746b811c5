-- ===== src/Limits/Admission.antt =====
-- `reserveCloudRotationWrite`, on the rows and reservations that its transaction locks.
use master_dns.Common.{
  ℕ, ◌+◌, ◌*◌, Bool, true, false, not, ◌&&◌, ◌||◌, Option, none, some, String, List, [], ◌∷◌, ◌++◌,
  map, filter, length, any, ltb, ◌==◌, is_some, if◌then◌else◌, Result, ok, ◌>>◌, throw_if,
}
use master_dns.Common.Text.{str_eq, includes, utf16, starts_with}
use master_dns.Limits.Rules.{
  CloudService, lightsail, LimitError, rotation_limit_too_low, Scope, Rule, RuleKind, token_bucket,
  sliding_window, write_units,
}
use master_dns.Limits.Buckets.{Row, LiveState, find_row, upsert, live_state, retry_time}

pub record Reservation : Type 0 where
  pub step_id : String
  pub consumed_at : Option ℕ

pub record Store : Type 0 where
  pub rows : List Row
  pub reservations : List Reservation

-- A step of the attempt's plan, from the one that is dispatched on, as the query reads it.
pub record PlanStep : Type 0 where
  pub id : String
  pub action : String
  pub is_dispatched : Bool
  pub is_reserved : Bool

pub record WriteInput : Type 0 where
  pub service : CloudService
  pub region : String
  pub step_id : String
  pub action : String
  pub remaining_steps : List (String × String)

-- The account's settings, the attempt's plan, and whether a reservation's incident is still
-- running, as the other queries read them.
pub record Circumstances : Type 0 where
  pub enabled : Bool
  pub effective_percent : ℕ
  pub idle_ip_release : Bool
  pub plan : List PlanStep
  pub is_running : String → Bool

pub data Admission : Type 0 where
  allowed : Admission
  denied : (rule_id : String) (retry_at : ℕ) → Admission

abbrev pub is_lightsail : CloudService → Bool
is_lightsail lightsail = true
is_lightsail _ = false

abbrev pub is_dynamic : WriteInput → Bool
is_dynamic input =
    is_lightsail input.service && starts_with (utf16 input.action) (utf16 "lightsail.static-ip.")

abbrev pub is_release : WriteInput → Bool
is_release input = str_eq input.action "lightsail.static-ip.release"

abbrev pub pending_ids : Circumstances → List Reservation → List String
pending_ids c reservations =
    map (λ r. r.step_id)
      (filter (λ r. not (is_some r.consumed_at) && c.is_running r.step_id) reservations)

abbrev pub has_step : List PlanStep → String → String → Bool
has_step plan id action = any (λ s. str_eq s.id id && str_eq s.action action) plan

abbrev pub is_reservable : WriteInput → PlanStep → Bool
is_reservable input s =
    not (str_eq s.id input.step_id)
    && not s.is_dispatched
    && not s.is_reserved
    && includes
        ("lightsail.static-ip.allocate" ∷ "lightsail.static-ip.detach"
          ∷ "lightsail.static-ip.attach" ∷ [])
        s.action

-- What the rules of a write are weighed with.
pub record Demand : Type 0 where
  pub dynamic : Bool
  pub release : Bool
  pub pending : ℕ
  pub owns_reservation : Bool
  pub new_reservations : List String

abbrev pub is_window : RuleKind → Bool
is_window (token_bucket units) = false
is_window (sliding_window seconds) = true

abbrev pub required_writes : Rule → Demand → ℕ
required_writes rule d =
    if is_window rule.kind && d.dynamic
    then (if d.owns_reservation then 0 else 1) + length d.new_reservations
    else 1

abbrev pub outstanding : Demand → ℕ
outstanding d = if d.dynamic then d.pending else 0

-- `used + required > rule.capacity`
abbrev pub is_over : RuleKind → LiveState → (capacity outstanding required : ℕ) → Bool
is_over (token_bucket units) state capacity waiting required =
    ltb (capacity * write_units) (state.debt + required * write_units)
is_over (sliding_window seconds) state capacity waiting required =
    ltb capacity (length state.events + waiting + required)

abbrev pub is_exempt : Rule → Demand → Bool
is_exempt rule d =
    d.dynamic
    && is_window rule.kind
    && (d.release || (d.dynamic && d.owns_reservation && (required_writes rule d == 0)))

abbrev pub rule_region : Rule → String → Option String
rule_region rule region = scoped rule.scope
  where
    scoped : Scope → Option String
    scoped Scope.global = none
    scoped Scope.region = some region

abbrev pub is_too_low : Bool → Rule → Demand → Bool
is_too_low enabled rule d =
    enabled
    && d.dynamic
    && not d.release
    && is_window rule.kind
    && ltb rule.capacity (required_writes rule d)

abbrev pub refuses : Bool → Rule → Demand → LiveState → Bool
refuses enabled rule d state =
    enabled
    && not (is_exempt rule d)
    && is_over rule.kind state rule.capacity (outstanding d) (required_writes rule d)

-- The later of two refusals, each with the rule's id and when to try again.
abbrev pub later_refusal : Option (String × ℕ) → String → ℕ → Option (String × ℕ)
later_refusal none rule_id retry_at = some (rule_id, retry_at)
later_refusal (some refusal) rule_id retry_at =
    if ltb refusal.1 retry_at then some (rule_id, retry_at) else some refusal

abbrev pub state_of : Rule → String → List Row → ℕ → LiveState
state_of rule region rows now =
    live_state rule (find_row rule.id (rule_region rule region) rows) now

-- The loop over the rules, for its refusal.
unfoldable pub weigh_rules :
    Bool
    → Demand
    → String
    → List Row
    → (now : ℕ) → List Rule
    → Option (String × ℕ)
    → Result LimitError (Option (String × ℕ))
weigh_rules enabled d region rows now [] refusal = ok refusal
weigh_rules enabled d region rows now (rule ∷ rules) refusal =
    let state = state_of rule region rows now in
    let retry_at = retry_time rule state (outstanding d) (required_writes rule d) now in
    throw_if (is_too_low enabled rule d) rotation_limit_too_low
    >> weigh_rules enabled d region rows now rules
        (if refuses enabled rule d state then later_refusal refusal rule.id retry_at else refusal)

abbrev pub added_events : RuleKind → LiveState → ℕ → List ℕ
added_events (token_bucket units) state now = []
added_events (sliding_window seconds) state now = state.events ++ (now ∷ [])

abbrev pub added_debt : RuleKind → LiveState → ℕ
added_debt (token_bucket units) state = state.debt + write_units
added_debt (sliding_window seconds) state = 0

-- `values` of the upsert, for a row that is new and for one that is there.
abbrev pub charge : Rule → Option String → LiveState → ℕ → Row → Row
charge rule region state now row = record row {
  rule_id = rule.id;
  region = region;
  debt = added_debt rule.kind state;
  events = added_events rule.kind state now;
  updated_at = now;
}

abbrev pub blank_row : String → Option String → Row
blank_row rule_id region = record {
  rule_id = rule_id;
  region = region;
  debt = 0;
  events = [];
  updated_at = 0;
  cooldown_until = none;
  throttle_count = 0;
}

-- The upserts, one for each rule, with the states that the loop read. Each is on a row of its own,
-- so that their order, which keeps locks from crossing, is left as that of the rules.
unfoldable pub charge_rules :
    String → (before : List Row) → (now : ℕ) → List Rule → List Row → List Row
charge_rules region before now [] rows = rows
charge_rules region before now (rule ∷ rules) rows =
    let where_ = rule_region rule region in
    let write = charge rule where_ (state_of rule region before now) now in
    charge_rules region before now rules (upsert (write (blank_row rule.id where_)) write rows)
