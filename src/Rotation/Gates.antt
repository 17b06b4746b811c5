-- ===== src/Rotation/Gates.antt =====
-- The gates of `nextRotationAction`: what a write, an attempt, a step and a candidate must pass.
use master_dns.Common.{
  Bool, true, false, not, ◌&&◌, ◌||◌, ◌==◌, Option, none, some, get_or, if◌then◌else◌,
}
use master_dns.Common.Number.{Number, num, less, at_most, is_finite, is_safe_integer}
use master_dns.Consensus.{RoundDecision}
use master_dns.Rotation.Snapshot.{
  RotationCloudRejection, StepStatus, Evidence, RotationCandidate, Attempt, RotationSnapshot,
  RotationPauseReason, WaitReason, PublishMode, RotationAction, wait, pause, prepare_attempt, probe,
}

-- `if (test) return action`, before the rest.
abbrev pub check : Bool → RotationAction → Option RotationAction → Option RotationAction
check test action rest = if test then some action else rest

unfoldable pub write_gate : RotationSnapshot → Option RotationAction
write_gate s = check auth.lifecycle_blocked (pause RotationPauseReason.instance_lifecycle_busy) (
    check (not auth.managed) (pause RotationPauseReason.authorization_revoked) (
      check (not auth.family_enabled) (pause RotationPauseReason.family_disabled) (
        check (not auth.present)
          (pause (RotationPauseReason.rejected RotationCloudRejection.resource_not_found))
          (check (not auth.region_allowed) (pause RotationPauseReason.region_excluded) (
            check auth.conflicting_manager (pause RotationPauseReason.conflicting_manager) (
              check (not (revisions.authorization == expected_revisions.authorization))
                (pause RotationPauseReason.authorization_changed)
                (check (not (revisions.policy == expected_revisions.policy))
                  (pause RotationPauseReason.configuration_changed)
                  (check (not (revisions.address == expected_revisions.address))
                    (pause RotationPauseReason.address_version_changed)
                    (check (not lease.held) (wait WaitReason.instance_busy none) (
                      check (not (lease.revision == lease.expected_revision))
                        (pause RotationPauseReason.stale_fence) none))))))))))
  where
    open s use {authorization as auth, revisions, expected_revisions, lease}

unfoldable pub exhausted : RotationSnapshot → Bool
exhausted s = s.budget.exhausted || at_most s.budget.max_attempts s.budget.attempts_used

unfoldable pub attempt_gate : RotationSnapshot → Number → Option RotationAction
unfolding exhausted
attempt_gate s now =
    check
      (not (is_safe_integer s.budget.max_attempts)
        || less s.budget.max_attempts (num 1)
        || not (is_safe_integer s.budget.attempts_used)
        || less s.budget.attempts_used (num 0)
        || not (is_finite s.next_attempt_at))
      (pause RotationPauseReason.invalid_snapshot)
      (check (exhausted s) (pause RotationPauseReason.attempts_exhausted) (
        check (less now s.next_attempt_at) (wait WaitReason.cooldown (some s.next_attempt_at))
          none))

unfoldable pub prepare : RotationSnapshot → Number → RotationAction
prepare s now = get_or (attempt_gate s now) (prepare_attempt s.budget.segment_id)

-- The latest round speaks for this candidate, and has not expired.
abbrev pub is_fresh : RotationCandidate → Evidence → Number → Bool
is_fresh c e now =
    (e.address_version == c.address_version)
    && (e.probe_config_revision == c.probe_config_revision)
    && at_most e.observed_at now
    && less now e.expires_at

abbrev pub is_success : RoundDecision → Bool
is_success RoundDecision.success = true
is_success _ = false

abbrev pub is_failure : RoundDecision → Bool
is_failure RoundDecision.failure = true
is_failure _ = false

-- `fresh && evidence.decision === "success" && evidence.consecutiveSuccesses >= …`
unfoldable pub proves_success : RotationCandidate → Option Evidence → Number → Bool
proves_success c none now = false
proves_success c (some e) now =
    is_fresh c e now && is_success e.decision && at_most c.success_threshold e.consecutive_successes

unfoldable pub proves_failure : RotationCandidate → Option Evidence → Number → Bool
proves_failure c none now = false
proves_failure c (some e) now =
    is_fresh c e now && is_failure e.decision && at_most c.failure_threshold e.consecutive_failures

abbrev pub is_charged : Option Attempt → Bool
is_charged none = false
is_charged (some attempt) = attempt.charged

abbrev pub bad_threshold : Number → Bool
bad_threshold n = not (is_safe_integer n) || less n (num 1)

unfoldable pub judge_candidate :
    RotationSnapshot → RotationCandidate → Number → Bool → RotationAction
judge_candidate s c now may_rotate =
    if not (c.address_version == s.revisions.address)
    then pause RotationPauseReason.address_version_changed
    else if bad_threshold c.success_threshold || bad_threshold c.failure_threshold
    then pause RotationPauseReason.invalid_snapshot
    else if proves_success c c.evidence now
    then RotationAction.publish PublishMode.dispatch c.address_version
    else if may_rotate && exhausted s
    then pause RotationPauseReason.attempts_exhausted
    else if proves_failure c c.evidence now
    then (if not may_rotate
        then pause RotationPauseReason.candidate_failed
        else if not (is_charged s.attempt)
        then pause RotationPauseReason.invalid_snapshot
        else prepare s now)
    else if less now c.next_probe_at
    then wait WaitReason.probe_insufficient (some c.next_probe_at)
    else probe c.address_version (at_most c.probe_window_ends_at now)

unfoldable pub candidate_action :
    RotationSnapshot → Option RotationCandidate → Number → Bool → RotationAction
unfolding judge_candidate
candidate_action s none now may_rotate = wait WaitReason.candidate_required none
candidate_action s (some c) now may_rotate = judge_candidate s c now may_rotate

-- `step.reason !== "rate_limited" && step.reason !== "temporary_cloud_error"` is false.
abbrev pub is_retryable : RotationCloudRejection → Bool
is_retryable RotationCloudRejection.rate_limited = true
is_retryable RotationCloudRejection.temporary_cloud_error = true
is_retryable _ = false

-- A rejected step waits for its retry, or pauses.
abbrev pub retry_gate : RotationCloudRejection → Option Number → Number → Option RotationAction
retry_gate reason none now = some (pause (RotationPauseReason.rejected reason))
retry_gate reason (some retry_at) now =
    if not (is_retryable reason)
    then some (pause (RotationPauseReason.rejected reason))
    else if less now retry_at
    then some (wait (WaitReason.rejected reason) (some retry_at))
    else none

-- What keeps the next step of the cloud phase from being executed.
abbrev pub step_gate : StepStatus → Number → Option RotationAction
step_gate StepStatus.ambiguous now = some (pause RotationPauseReason.resource_ownership_ambiguous)
step_gate StepStatus.not_applied now = some (pause RotationPauseReason.cloud_not_applied)
step_gate (StepStatus.rejected_no_effect reason retry_at) now = retry_gate reason retry_at now
step_gate status now = none
