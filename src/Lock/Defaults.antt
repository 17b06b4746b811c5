-- ===== src/Lock/Defaults.antt =====
-- The timings that `withRedisLease` accepts, and the default ones.
use master_dns.Common.{
  ℕ, ◌+◌, ◌≤◌, ◌<◌, ◌≡◌, min, none, some, ◌==◌, leb, true, false, err, ok, arith, refl,
}
use master_dns.Lock.Options.{
  DnsZoneLockOptions, Timings, refresh_too_slow, lease_timings, default_refresh,
  default_command_timeout,
}
use master_dns.Lock.Exclusion.{HasSlack}

abbrev pub only_lease : ℕ → DnsZoneLockOptions
only_lease lease = record {
  lease_ms = some lease;
  wait_timeout_ms = none;
  poll_interval_ms = none;
  refresh_interval_ms = none;
  command_timeout_ms = none;
  cleanup_timeout_ms = none;
}

abbrev default_timings : ℕ → Timings
default_timings lease = record {
  lease = lease;
  wait_timeout = 30000;
  poll_interval = 100;
  refresh_interval = default_refresh lease;
  command_timeout = default_command_timeout lease;
  cleanup_timeout = min 2000 (default_command_timeout lease);
}

defaults_lem :
    (lease : ℕ)
    → 1500 < lease
    → (0 < default_refresh lease)
      × (0 < default_command_timeout lease)
      × (default_refresh lease + default_command_timeout lease + default_command_timeout lease
          < lease)
defaults_lem lease long = ground arith

accepted :
    (lease : ℕ) → 1500 < lease → lease_timings (only_lease lease) ≡ ok (default_timings lease)
unfolding lease_timings
accepted lease long =
    let some_lease : (lease == 0) ≡ false = ground arith in
    let some_refresh : (default_refresh lease == 0) ≡ false = ground arith in
    let some_command : (default_command_timeout lease == 0) ≡ false = ground arith in
    let some_cleanup : (min 2000 (default_command_timeout lease) == 0) ≡ false = ground arith in
    let fits : leb lease (default_refresh lease + default_command_timeout lease) ≡ false =
      ground arith in
    rw (some_lease, some_refresh, some_command, some_cleanup, fits) refl

-- A short lease is refused as too short for its renewal.
rejected :
    (lease : ℕ) → 0 < lease → lease ≤ 1200 → lease_timings (only_lease lease) ≡ err refresh_too_slow
unfolding lease_timings
rejected lease pos short =
    let some_lease : (lease == 0) ≡ false = ground arith in
    let some_refresh : (default_refresh lease == 0) ≡ false = ground arith in
    let some_command : (default_command_timeout lease == 0) ≡ false = ground arith in
    let some_cleanup : (min 2000 (default_command_timeout lease) == 0) ≡ false = ground arith in
    let late : leb lease (default_refresh lease + default_command_timeout lease) ≡ true =
      ground arith in
    rw (some_lease, some_refresh, some_command, some_cleanup, late) refl

-- With the default intervals a lease of more than 1,500 ms is accepted, and is longer than the
-- refresh interval and two command timeouts.
pub lease_timings-HasSlack :
    (lease : ℕ)
    → 1500 < lease
    → (t : Timings) × (lease_timings (only_lease lease) ≡ ok t) × (t.lease ≡ lease) × HasSlack t
lease_timings-HasSlack lease long =
    (default_timings lease, accepted lease long, refl, (defaults_lem lease long).2)
