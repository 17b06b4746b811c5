-- ===== src/Lock/Examples.antt =====
-- The theorems on the lock in a short run of two calls, and tests.
use master_dns.Common.{ℕ, ◌≡◌, refl, true, arith}
use master_dns.Lock.Options.{Timings}
use master_dns.Lock.Redis.{is_owned, set_nx}
use master_dns.Lock.Client.{issue, run, reply, react, waiting}
use master_dns.Lock.World.{World, start, happen, act, Reach, here, next}
use master_dns.Lock.Exclusion.{Reach-exclusive}

abbrev quick : Timings
quick = record {
  lease = 9;
  wait_timeout = 30;
  poll_interval = 1;
  refresh_interval = 3;
  command_timeout = 2;
  cleanup_timeout = 2;
}

-- Call 0 takes the key; call 1 asks for it and is refused.
abbrev taken : World
taken =
    let asked = happen quick (happen quick start 0 issue) 1 issue in
    let ran = happen quick (happen quick asked 0 run) 1 run in
    happen quick (happen quick ran 0 reply) 1 reply

taken_reached : Reach quick taken
taken_reached =
    next
      (next (next (next (next (next here (act 0 issue)) (act 1 issue)) (act 0 run)) (act 1 run))
        (act 0 reply))
      (act 1 reply)

second_waits : taken.phase 1 ≡ waiting
unfolding happen react set_nx
second_waits = refl

Reach-exclusive_example : (is_owned taken.entry 0 taken.now ≡ true) × (◌≡◌ {A = ℕ} 0 0)
unfolding happen react set_nx
Reach-exclusive_example = Reach-exclusive quick taken 0 0 (omega arith) taken_reached refl refl
