-- ===== src/Limits/Reserve.antt =====
-- `reserveCloudRotationWrite` as a whole.
use master_dns.Common.{
  ℕ, ◌+◌, Bool, true, not, ◌&&◌, Option, none, some, String, List, [], ◌∷◌, ◌++◌, map, filter,
  length, all, ltb, if◌then◌else◌, Result, ok, ◌>>=◌, ◌>>◌, throw_if,
}
use master_dns.Common.Text.{str_eq, includes}
use master_dns.Limits.Rules.{
  LimitError, invalid_rotation_reservation_step, Rule, cloud_rotation_rules_for_action,
}
use master_dns.Limits.Buckets.{Row}
use master_dns.Limits.Admission.{
  WriteInput, Circumstances, Store, Reservation, PlanStep, Demand, Admission, allowed, denied,
  is_dynamic, is_release, has_step, is_reservable, pending_ids, weigh_rules, charge_rules,
  is_lightsail,
}

-- `rows.find(row => row.ruleId === "cooldown")?.cooldownUntil`
unfoldable pub find_cooldown : List Row → Option Row
find_cooldown [] = none
find_cooldown (row ∷ rows) =
    let rest = find_cooldown rows in if str_eq row.rule_id "cooldown" then some row else rest

abbrev pub cooldown_of : Option Row → Option ℕ
cooldown_of none = none
cooldown_of (some row) = row.cooldown_until

-- A cooldown that is still running.
abbrev pub running_cooldown : Option ℕ → (now : ℕ) → Option ℕ
running_cooldown none now = none
running_cooldown (some until) now = if ltb now until then some until else none

abbrev pub demand_of : WriteInput → Circumstances → List Reservation → List String → Demand
demand_of input c reservations fresh =
    let pending = if is_dynamic input then pending_ids c reservations else [] in
    record {
      dynamic = is_dynamic input;
      release = is_release input;
      pending = length pending;
      owns_reservation = includes pending input.step_id;
      new_reservations = fresh;
    }

-- The reservations that are new, and the step's own, which its write consumes.
abbrev pub settle_reservations : WriteInput → Demand → ℕ → List Reservation → List Reservation
settle_reservations input d now reservations =
    let all_ =
      reservations ++ map (λ id. record { step_id = id; consumed_at = none }) d.new_reservations in
    if d.owns_reservation then map consume all_ else all_
  where
    consume : Reservation → Reservation
    consume r = if str_eq r.step_id input.step_id then record r { consumed_at = some now } else r

abbrev pub spend_writes : WriteInput → Store → (now : ℕ) → List Rule → Demand → Store
spend_writes input store now rules d = record {
  rows = charge_rules input.region store.rows now rules store.rows;
  reservations = settle_reservations input d now store.reservations;
}

unfoldable pub conclude :
    WriteInput → Store → (now : ℕ) → List Rule → Demand → Option (String × ℕ) → Store × Admission
conclude input store now rules d (some refusal) = (store, denied refusal.0 refusal.1)
conclude input store now rules d none = (spend_writes input store now rules d, allowed)

abbrev pub unless_cooling :
    Option ℕ → Store → Result LimitError (Store × Admission) → Result LimitError (Store × Admission)
unless_cooling (some until) store rest = ok (store, denied "cooldown" until)
unless_cooling none store rest = rest

module _ (floor_share : (capacity percent : ℕ) → ℕ) where
  -- `for (const step of steps) cloudRotationRulesForAction(…)`
  abbrev pub check_actions : WriteInput → List PlanStep → Result LimitError Bool
  check_actions input [] = ok true
  check_actions input (s ∷ rest) =
      cloud_rotation_rules_for_action floor_share input.service s.action 80 >>= λ _.
      check_actions input rest

  unfoldable pub new_reservations : WriteInput → Circumstances → Result LimitError (List String)
  new_reservations input c = if is_dynamic input && not (is_release input) then planned else ok []
    where
      planned : Result LimitError (List String)
      planned = do
        throw_if (not (has_step c.plan input.step_id input.action))
            invalid_rotation_reservation_step
        throw_if (not (all (λ s. has_step c.plan s.0 s.1) input.remaining_steps))
            invalid_rotation_reservation_step
        checked ← check_actions input c.plan
        ok (map (λ s. s.id) (filter (is_reservable input) c.plan))

  -- The part after the cooldown.
  unfoldable pub weigh_write :
      Circumstances → WriteInput → Store → (now : ℕ) → Result LimitError (Store × Admission)
  weigh_write c input store now = do
    rules ←
        cloud_rotation_rules_for_action floor_share input.service input.action c.effective_percent
    fresh ← new_reservations input c
    let d = demand_of input c store.reservations fresh
    refusal ← weigh_rules c.enabled d input.region store.rows now rules none
    ok (conclude input store now rules d refusal)

  unfoldable pub reserve_cloud_rotation_write :
      Circumstances → WriteInput → Store → (now : ℕ) → Result LimitError (Store × Admission)
  reserve_cloud_rotation_write c input store now =
      cloud_rotation_rules_for_action floor_share input.service input.action 80 >>= λ _.
      (if is_lightsail input.service && c.idle_ip_release
        then ok (store, denied "idle_ip_cleanup" (now + 5000))
        else unless_cooling (running_cooldown (cooldown_of (find_cooldown store.rows)) now) store
            (weigh_write c input store now))
