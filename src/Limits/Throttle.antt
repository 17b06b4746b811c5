-- ===== src/Limits/Throttle.antt =====
-- `recordCloudRotationThrottle`: the cooldown after the vendor's own refusal.
use master_dns.Common.{
  ℕ, ◌+◌, ◌*◌, ◌-◌, max, min, zero, suc, Option, none, some, ltb, if◌then◌else◌, get_or,
}
use master_dns.Limits.Buckets.{Row, upsert}
use master_dns.Limits.Admission.{Store, blank_row}
use master_dns.Limits.Reserve.{find_cooldown, cooldown_of}

abbrev pub double : ℕ → ℕ → ℕ
double zero x = x
double (suc n) x = double n (2 * x)

-- The throttles in a row, of which the seventh and each further one count as seven.
unfoldable pub throttle_count_at : Option Row → (now : ℕ) → ℕ
throttle_count_at none now = 1
throttle_count_at (some row) now =
    if ltb now (row.updated_at + 3600000) then min (row.throttle_count + 1) 7 else 1

-- `none` where the vendor's delay is not a finite number; a negative one is 0 for both.
abbrev pub retry_after : Option ℕ → ℕ
retry_after none = 0
retry_after (some ms) = min 86400000 ms

unfoldable pub backoff : (count : ℕ) → ℕ
backoff count = min 3600000 (double (count - 1) 60000)

unfoldable pub throttle_until : Option Row → Option ℕ → (now : ℕ) → ℕ
throttle_until previous delay now =
    max (get_or (cooldown_of previous) 0)
      (now + max (backoff (throttle_count_at previous now)) (retry_after delay))

abbrev pub cool_down : Option Row → Option ℕ → ℕ → Row → Row
cool_down previous delay now row = record row {
  rule_id = "cooldown";
  region = none;
  updated_at = now;
  cooldown_until = some (throttle_until previous delay now);
  throttle_count = throttle_count_at previous now;
}

unfoldable pub record_throttle : Option ℕ → (now : ℕ) → Store → Store
record_throttle delay now store =
    let change = cool_down (find_cooldown store.rows) delay now in
    record store { rows = upsert (change (blank_row "cooldown" none)) change store.rows }
