-- ===== src/Rotation/Examples.antt =====
-- Snapshots of a rotation, and instances of the theorems about the next action.
use master_dns.Common.{true, false, none, some, List, [], ◌∷◌, ◌≡◌, ◌⊎◌, refl, ap}
use master_dns.Rotation.Snapshot.{
  Phase, Publication, Cleanup, StepStatus, RotationCloudRejection, PublishMode, RotationAction,
  prepare_attempt, cloud_step, Attempt, RotationRevisions, RotationSnapshot, RotationStepSnapshot,
  RotationCandidate,
}
use master_dns.Rotation.Machine.{next_rotation_action, guarded_action, cleanup_action, cloud_action}
use master_dns.Rotation.Gates.{
  write_gate, candidate_action, proves_success, proves_failure, prepare, attempt_gate,
}
use master_dns.Common.Number.{is_finite, num}
use master_dns.Consensus.{RoundDecision}
use master_dns.Rotation.Cleaning.{
  InCleanup, IsPublished, RunsCleanup, IsClean, cleanup_runs_guarded, complete_only_after_cleanup,
}
use master_dns.Rotation.Publishing.{InPublishing, HasSucceeded, dispatch_needs_fresh_success}
use master_dns.Rotation.Attempts.{InBudget, NeedsAttempt, prepare_attempt_within_budget}
use master_dns.Rotation.Steps.{RunsStep, cloud_step_runs_next}
use master_dns.Rotation.Writes.{IsAuthorized, writes_pass_gate, is_write}

abbrev revisions : RotationRevisions
revisions = record { authorization = 4; policy = 2; address = 7 }

-- One step is applied, the next was rejected by the rate limit and may be tried again from 50 on.
abbrev first_attempt : Attempt
first_attempt = record {
  attempt_id = "attempt-1";
  segment_id = "segment-1";
  charged = true;
  steps =
      record { step_id = "allocate"; status = StepStatus.applied }
      ∷ record {
        step_id = "associate";
        status = StepStatus.rejected_no_effect RotationCloudRejection.rate_limited (some (num 50));
      }
      ∷ [];
}

abbrev new_address : RoundDecision → RotationCandidate
new_address decision = record {
  address_version = 7;
  probe_config_revision = 3;
  success_threshold = num 2;
  failure_threshold = num 2;
  probe_window_ends_at = num 500;
  next_probe_at = num 130;
  evidence = some (record {
    address_version = 7;
    probe_config_revision = 3;
    decision = decision;
    consecutive_successes = num 2;
    consecutive_failures = num 2;
    observed_at = num 90;
    expires_at = num 150;
  });
}

abbrev in_cloud : RotationSnapshot
in_cloud = record {
  phase = Phase.cloud;
  authorization = record {
    managed = true;
    family_enabled = true;
    present = true;
    region_allowed = true;
    conflicting_manager = false;
    lifecycle_blocked = false;
  };
  revisions = revisions;
  expected_revisions = revisions;
  lease = record { held = true; revision = 9; expected_revision = 9 };
  budget = record {
    segment_id = "segment-1";
    attempts_used = num 1;
    max_attempts = num 3;
    exhausted = false;
  };
  next_attempt_at = num 60;
  attempt = some first_attempt;
  candidate = none;
  publication = Publication.pending;
  cleanup = Cleanup.not_required;
}

abbrev judged : RoundDecision → RotationSnapshot
judged decision = record in_cloud {
  phase = Phase.candidate;
  candidate = some (new_address decision);
}

abbrev published : List RotationStepSnapshot → RotationSnapshot
published steps = record (judged RoundDecision.success) {
  phase = Phase.publish;
  publication = Publication.applied 7;
  cleanup =
      Cleanup.required (record {
        authorized = true;
        ownership_verified = true;
        not_before = num 80;
        steps = steps;
      });
}

retries : next_rotation_action in_cloud (num 100) ≡ cloud_step "attempt-1" "associate"
unfolding next_rotation_action guarded_action write_gate cloud_action
retries = refl

rotates_again :
    next_rotation_action (judged RoundDecision.failure) (num 100) ≡ prepare_attempt "segment-1"
unfolding next_rotation_action guarded_action write_gate candidate_action proves_success
    proves_failure prepare attempt_gate
rotates_again = refl

dispatches :
    next_rotation_action (judged RoundDecision.success) (num 100)
    ≡ RotationAction.publish PublishMode.dispatch 7
unfolding next_rotation_action guarded_action write_gate candidate_action proves_success
dispatches = refl

releases :
    next_rotation_action
      (published (record { step_id = "release"; status = StepStatus.prepared } ∷ []))
      (num 100)
    ≡ RotationAction.cleanup "attempt-1" "release"
unfolding next_rotation_action guarded_action write_gate cleanup_action
releases = refl

ends :
    next_rotation_action
      (published (record { step_id = "release"; status = StepStatus.applied } ∷ []))
      (num 100)
    ≡ RotationAction.complete
unfolding next_rotation_action guarded_action write_gate cleanup_action
ends = refl

writes_pass_gate_example : (is_finite (num 100) ≡ true) × IsAuthorized in_cloud
writes_pass_gate_example = writes_pass_gate in_cloud (num 100) (ap is_write retries)

cloud_step_runs_next_example : RunsStep in_cloud (num 100) "attempt-1" "associate"
cloud_step_runs_next_example =
    cloud_step_runs_next in_cloud (num 100) "attempt-1" "associate" retries

prepare_attempt_within_budget_example :
    ("segment-1" ≡ in_cloud.budget.segment_id)
    × InBudget (judged RoundDecision.failure) (num 100)
    × NeedsAttempt (judged RoundDecision.failure) (num 100)
prepare_attempt_within_budget_example =
    prepare_attempt_within_budget (judged RoundDecision.failure) (num 100) "segment-1" rotates_again

dispatch_needs_fresh_success_example :
    InPublishing Phase.candidate × HasSucceeded (judged RoundDecision.success) (num 100) 7
dispatch_needs_fresh_success_example =
    dispatch_needs_fresh_success (judged RoundDecision.success) (num 100) 7 dispatches

cleanup_runs_guarded_example :
    InCleanup Phase.publish
    × RunsCleanup
        (published (record { step_id = "release"; status = StepStatus.prepared } ∷ []))
        (num 100)
        "attempt-1"
        "release"
cleanup_runs_guarded_example =
    cleanup_runs_guarded
      (published (record { step_id = "release"; status = StepStatus.prepared } ∷ [])) (num 100)
      "attempt-1" "release" releases

complete_only_after_cleanup_example :
    let s = published (record { step_id = "release"; status = StepStatus.applied } ∷ []) in
    (s.phase ≡ Phase.complete) ⊎ (InCleanup s.phase × IsPublished s × IsClean s.cleanup)
complete_only_after_cleanup_example =
    complete_only_after_cleanup
      (published (record { step_id = "release"; status = StepStatus.applied } ∷ [])) (num 100) ends
