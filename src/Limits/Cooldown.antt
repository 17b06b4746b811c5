-- ===== src/Limits/Cooldown.antt =====
-- The length of a cooldown, and that it holds every write back.
use master_dns.Common.{
  ℕ, ◌+◌, ◌*◌, ◌-◌, ◌≤◌, ◌<◌, ◌&&◌, lt→ltb, ◌≡◌, refl, inl, inr, zero, suc, Bool, true, false,
  Option, none, some, List, [], ◌∷◌, ok, arith, Bool-cases, All,
}
use master_dns.Common.Text.{str_eq}
use master_dns.Limits.Rules.{Rule, cloud_rotation_rules_for_action}
use master_dns.Limits.Buckets.{Row, upsert}
use master_dns.Limits.Admission.{WriteInput, Circumstances, Store, denied, blank_row, is_lightsail}
use master_dns.Limits.Reserve.{find_cooldown, cooldown_of, reserve_cloud_rotation_write}
use master_dns.Limits.Throttle.{
  double, throttle_count_at, backoff, throttle_until, cool_down, record_throttle,
}

double_least : (n x : ℕ) → x ≤ double n x
double_least zero x = omega arith
double_least (suc n) x = let more = double_least n (2 * x) in omega arith

backoff_lem : (count : ℕ) → (60000 ≤ backoff count) × (backoff count ≤ 3600000)
unfolding backoff
backoff_lem count = let more = double_least (count - 1) 60000 in (omega arith, omega arith)

throttle_until_least :
    (previous : Option Row) (delay : Option ℕ) (now : ℕ)
    → now + 60000 ≤ throttle_until previous delay now
unfolding throttle_until
throttle_until_least previous delay now =
    let (least, most) = backoff_lem (throttle_count_at previous now) in omega arith

-- Rows on the id "cooldown" are for all regions, as `record_throttle` writes them.
abbrev pub IsGlobalCooldown : Row → Type 0
IsGlobalCooldown row = str_eq row.rule_id "cooldown" ≡ true → row.region ≡ none

module _ (previous : Option Row) (delay : Option ℕ) (now : ℕ) where
  abbrev change : Row → Row
  change row = cool_down previous delay now row

  find_cooldown-upsert :
      (rows : List Row)
      → All IsGlobalCooldown rows
      → cooldown_of (find_cooldown (upsert (change (blank_row "cooldown" none)) change rows))
        ≡ some (throttle_until previous delay now)
  unfolding find_cooldown upsert
  find_cooldown-upsert [] globals = refl
  find_cooldown-upsert (row ∷ rows) (is_global, globals) =
      elim (Bool-cases (str_eq row.rule_id "cooldown")) [
        | inl e ↦ rw (e, is_global e) refl
        | inr e ↦ rw (e, e) (find_cooldown-upsert rows globals)
      ]

&&_false : (b : Bool) → (b && false) ≡ false
&&_false b = ground arith

-- A throttle starts a cooldown, or extends the one before, to a minute from then at least, and
-- until it ends every write with a supported action is denied with the cooldown's end, unless an
-- idle address is being released. Rows on the id "cooldown" must be for all regions.
pub reserve-throttle :
    (floor_share : (capacity percent : ℕ) → ℕ) (c : Circumstances) (input : WriteInput)
    (store : Store) (delay : Option ℕ) (now later : ℕ) (rules : List Rule)
    → let until = throttle_until (find_cooldown store.rows) delay now in
      let after = record_throttle delay now store in
      All IsGlobalCooldown store.rows
      → cloud_rotation_rules_for_action floor_share input.service input.action 80 ≡ ok rules
      → c.idle_ip_release ≡ false
      → later < until
      → (now + 60000 ≤ until)
        × (reserve_cloud_rotation_write floor_share c input after later
            ≡ ok (after, denied "cooldown" until))
unfolding reserve_cloud_rotation_write record_throttle
reserve-throttle floor_share c input store delay now later rules globals supported idle early =
    let cools = find_cooldown-upsert (find_cooldown store.rows) delay now store.rows globals in
    let still = lt→ltb later (throttle_until (find_cooldown store.rows) delay now) early in
    (
      throttle_until_least (find_cooldown store.rows) delay now,
      rw (supported, idle, cools, still, &&_false (is_lightsail input.service)) refl,
    )
