-- ===== src/Health.antt =====
-- packages/automation/src/health-state.ts: the health state of an address under check results.
-- `HealthState` and `HealthObservation` are those of packages/contracts/src/health.ts.
pub mod Invariant
pub mod Streaks
mod Examples
use master_dns.Common.{
  ℕ, suc, ◌+◌, Bool, true, false, List, [], ◌∷◌, ltb, leb, if◌then◌else◌, Result, ok, err, ◌>>=◌,
  ◌>>◌, throw_if,
}

pub data HealthState : Type 0 where
  unknown healthy degraded unhealthy recovering : HealthState

pub record HealthObservation : Type 0 where
  pub state : HealthState
  pub consecutive_successes : ℕ
  pub consecutive_failures : ℕ

pub record HealthThresholds : Type 0 where
  pub failure_threshold : ℕ
  pub success_threshold : ℕ

-- The messages of the errors that are thrown.
pub data HealthError : Type 0 where
  bad_failure_threshold bad_success_threshold empty_round_id : HealthError

unfoldable pub validate_thresholds : HealthThresholds → Result HealthError (Unit {0})
validate_thresholds t = do
  throw_if (ltb t.failure_threshold 1) bad_failure_threshold
  throw_if (ltb t.success_threshold 1) bad_success_threshold

-- The state after a success, when the count of successes has, or has not, reached its threshold.
abbrev pub after_success : HealthState → Bool → HealthState
after_success healthy becomes_healthy = healthy
after_success unhealthy becomes_healthy = if becomes_healthy then healthy else recovering
after_success recovering becomes_healthy = if becomes_healthy then healthy else recovering
after_success state becomes_healthy = if becomes_healthy then healthy else state

-- The same after a failure.
abbrev pub after_failure : HealthState → Bool → HealthState
after_failure unhealthy becomes_unhealthy = unhealthy
after_failure recovering becomes_unhealthy = unhealthy
after_failure healthy becomes_unhealthy = if becomes_unhealthy then unhealthy else degraded
after_failure degraded becomes_unhealthy = if becomes_unhealthy then unhealthy else degraded
after_failure unknown becomes_unhealthy = if becomes_unhealthy then unhealthy else unknown

-- One result, once the thresholds are known to be valid.
unfoldable pub observe : HealthObservation → Bool → HealthThresholds → HealthObservation
observe current true t =
    let successes = current.consecutive_successes + 1 in
    record {
      state = after_success current.state (leb t.success_threshold successes);
      consecutive_successes = successes;
      consecutive_failures = 0;
    }
observe current false t =
    let failures = current.consecutive_failures + 1 in
    record {
      state = after_failure current.state (leb t.failure_threshold failures);
      consecutive_successes = 0;
      consecutive_failures = failures;
    }

unfoldable pub apply_health_result :
    HealthObservation → Bool → HealthThresholds → Result HealthError HealthObservation
apply_health_result current success t = do validate_thresholds t; ok (observe current success t)

-- A sequence of results, each applied to the observation that the last one left.
unfoldable pub apply_results :
    HealthObservation → List Bool → HealthThresholds → Result HealthError HealthObservation
apply_results o [] t = ok o
apply_results o (r ∷ rs) t = do next ← apply_health_result o r t; apply_results next rs t
