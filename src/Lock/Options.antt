-- ===== src/Lock/Options.antt =====
-- The options of `withRedisLease`, in milliseconds.
use master_dns.Common.{
  ℕ, ◌+◌, ◌/◌, min, max, Option, ◌==◌, leb, Result, ok, ◌>>=◌, ◌>>◌, throw_if, get_or, String,
}

pub record DnsZoneLockOptions : Type 0 where
  pub lease_ms : Option ℕ
  pub wait_timeout_ms : Option ℕ
  pub poll_interval_ms : Option ℕ
  pub refresh_interval_ms : Option ℕ
  pub command_timeout_ms : Option ℕ
  pub cleanup_timeout_ms : Option ℕ

pub record Timings : Type 0 where
  pub lease : ℕ
  pub wait_timeout : ℕ
  pub poll_interval : ℕ
  pub refresh_interval : ℕ
  pub command_timeout : ℕ
  pub cleanup_timeout : ℕ

pub data OptionError : Type 0 where
  not_positive : (name : String) → OptionError
  refresh_too_slow : OptionError

abbrev pub positive_option : String → ℕ → Result OptionError ℕ
positive_option name value = throw_if (value == 0) (not_positive name) >> ok value

abbrev pub default_refresh : ℕ → ℕ
default_refresh lease = max 1000 (lease / 3)

abbrev pub default_command_timeout : ℕ → ℕ
default_command_timeout lease = min 5000 (max 100 (lease / 6))

unfoldable pub lease_timings : DnsZoneLockOptions → Result OptionError Timings
lease_timings options = do
  lease ← positive_option "leaseMs" (get_or options.lease_ms 120000)
  wait ← positive_option "waitTimeoutMs" (get_or options.wait_timeout_ms 30000)
  poll ← positive_option "pollIntervalMs" (get_or options.poll_interval_ms 100)
  refresh ←
      positive_option "refreshIntervalMs"
        (get_or options.refresh_interval_ms (default_refresh lease))
  command ←
      positive_option "commandTimeoutMs"
        (get_or options.command_timeout_ms (default_command_timeout lease))
  cleanup ←
      positive_option "cleanupTimeoutMs" (get_or options.cleanup_timeout_ms (min 2000 command))
  throw_if (leb lease (refresh + command)) refresh_too_slow
  ok (record {
    lease = lease;
    wait_timeout = wait;
    poll_interval = poll;
    refresh_interval = refresh;
    command_timeout = command;
    cleanup_timeout = cleanup;
  })
