-- ===== src/Rotation/Machine.antt =====
-- `nextRotationAction` and the functions that it calls.
use master_dns.Common.{
  ℕ, Bool, true, false, not, ◌||◌, ◌==◌, Option, none, some, List, [], get_or, if◌then◌else◌, find,
}
use master_dns.Common.Text.{str_eq}
use master_dns.Common.Number.{Number, less, at_most, is_finite}
use master_dns.Rotation.Snapshot.{
  StepStatus, RotationStepSnapshot, RotationCandidate, Phase, Attempt, Publication, CleanupPlan,
  Cleanup, RotationSnapshot, RotationPauseReason, WaitReason, PublishMode, RotationAction, wait,
  pause, cloud_step,
}
use master_dns.Rotation.Gates.{attempt_gate, candidate_action, prepare, step_gate, write_gate}

-- `?.steps`
abbrev pub steps_of : Option Attempt → List RotationStepSnapshot
steps_of none = []
steps_of (some attempt) = attempt.steps

abbrev pub is_applied : StepStatus → Bool
is_applied StepStatus.applied = true
is_applied _ = false

-- `steps.find((item) => item.status !== "applied")`
abbrev pub first_unapplied : List RotationStepSnapshot → Option RotationStepSnapshot
first_unapplied steps = find (λ item. not (is_applied item.status)) steps

abbrev pub cleanup_steps : Cleanup → List RotationStepSnapshot
cleanup_steps (Cleanup.required plan) = plan.steps
cleanup_steps _ = []

-- The steps of the phase. Cleanup steps are looked at in `publish` once the DNS records are applied.
abbrev pub current_steps :
    Phase → Publication → Cleanup → Option Attempt → List RotationStepSnapshot
current_steps Phase.cloud publication cleanup attempt = steps_of attempt
current_steps Phase.cleanup publication cleanup attempt = cleanup_steps cleanup
current_steps Phase.publish (Publication.applied version) cleanup attempt = cleanup_steps cleanup
current_steps phase publication cleanup attempt = []

unfoldable pub current_step : RotationSnapshot → Option RotationStepSnapshot
current_step s = first_unapplied (current_steps s.phase s.publication s.cleanup s.attempt)

-- Reads must still reconcile dispatched effects, whatever has become of the authorization.
abbrev pub observe_step :
    Attempt → RotationStepSnapshot → StepStatus → Number → Option RotationAction
observe_step attempt step (StepStatus.in_flight deadline) now =
    some (RotationAction.observe attempt.attempt_id step.step_id (at_most deadline now))
observe_step attempt step (StepStatus.pending deadline) now =
    some (RotationAction.observe attempt.attempt_id step.step_id (at_most deadline now))
observe_step attempt step status now = none

abbrev pub observation :
    Option Attempt → Option RotationStepSnapshot → Number → Option RotationAction
observation (some attempt) (some step) now = observe_step attempt step step.status now
observation attempt step now = none

abbrev pub observe_publication : Publication → Option RotationAction
observe_publication (Publication.in_flight version) =
    some (RotationAction.publish PublishMode.observe version)
observe_publication _ = none

abbrev pub status_is_abandoned : StepStatus → Bool
status_is_abandoned StepStatus.abandoned = true
status_is_abandoned _ = false

abbrev pub is_abandoned : Option RotationStepSnapshot → Bool
is_abandoned none = false
is_abandoned (some step) = status_is_abandoned step.status

abbrev pub is_nil : List RotationStepSnapshot → Bool
is_nil [] = true
is_nil _ = false

abbrev pub run_step :
    RotationSnapshot → Attempt → Option RotationStepSnapshot → Number → RotationAction
run_step s attempt none now = wait WaitReason.candidate_required none
run_step s attempt (some step) now = get_or (step_gate step.status now) (
    get_or (if attempt.charged then none else attempt_gate s now)
      (cloud_step attempt.attempt_id step.step_id))

unfoldable pub cloud_action :
    RotationSnapshot → Option Attempt → Option RotationStepSnapshot → Number → RotationAction
cloud_action s none step now = prepare s now
cloud_action s (some attempt) step now =
    if is_nil attempt.steps || not (str_eq attempt.segment_id s.budget.segment_id)
    then pause RotationPauseReason.invalid_snapshot
    else run_step s attempt step now

-- `version !== snapshot.candidate?.addressVersion` is false.
abbrev pub is_candidate_version : Option RotationCandidate → ℕ → Bool
is_candidate_version none version = false
is_candidate_version (some c) version = version == c.address_version

abbrev pub is_ambiguous : StepStatus → Bool
is_ambiguous StepStatus.ambiguous = true
is_ambiguous _ = false

abbrev pub is_prepared : StepStatus → Bool
is_prepared StepStatus.prepared = true
is_prepared _ = false

abbrev pub start_cleanup : Option Attempt → RotationStepSnapshot → RotationAction
start_cleanup none step = pause RotationPauseReason.invalid_snapshot
start_cleanup (some attempt) step = RotationAction.cleanup attempt.attempt_id step.step_id

abbrev pub cleanup_step :
    RotationSnapshot → CleanupPlan → Option RotationStepSnapshot → Number → RotationAction
cleanup_step s plan none now = RotationAction.complete
cleanup_step s plan (some step) now =
    if not plan.authorized
    then pause RotationPauseReason.cleanup_not_authorized
    else if not plan.ownership_verified || is_ambiguous step.status
    then pause RotationPauseReason.resource_ownership_ambiguous
    else if not (is_prepared step.status)
    then pause RotationPauseReason.cleanup_failed
    else if less now plan.not_before
    then wait WaitReason.cleanup_grace (some plan.not_before)
    else start_cleanup s.attempt step

abbrev pub run_cleanup : RotationSnapshot → Cleanup → Number → RotationAction
run_cleanup s Cleanup.failed now = pause RotationPauseReason.cleanup_failed
run_cleanup s Cleanup.not_required now = RotationAction.complete
run_cleanup s (Cleanup.required plan) now = cleanup_step s plan (first_unapplied plan.steps) now

unfoldable pub cleanup_action : RotationSnapshot → Publication → Number → RotationAction
cleanup_action s Publication.failed now = pause RotationPauseReason.dns_partial
cleanup_action s (Publication.applied version) now =
    if not (version == s.revisions.address) || not (is_candidate_version s.candidate version)
    then pause RotationPauseReason.address_version_changed
    else run_cleanup s s.cleanup now
cleanup_action s publication now = wait WaitReason.publication_required none

abbrev pub publish_action : RotationSnapshot → Publication → Number → RotationAction
publish_action s Publication.failed now = pause RotationPauseReason.dns_partial
publish_action s (Publication.applied version) now =
    cleanup_action s (Publication.applied version) now
publish_action s publication now = candidate_action s s.candidate now false

-- The `switch` on the phase.
abbrev pub phase_action :
    RotationSnapshot → Phase → Option RotationStepSnapshot → Number → RotationAction
phase_action s Phase.cloud step now = cloud_action s s.attempt step now
phase_action s Phase.candidate step now = candidate_action s s.candidate now true
phase_action s Phase.publish step now = publish_action s s.publication now
phase_action s Phase.cleanup step now = cleanup_action s s.publication now
phase_action s Phase.complete step now = RotationAction.complete

abbrev pub is_complete : Phase → Bool
is_complete Phase.complete = true
is_complete _ = false

-- From the check of `now` on.
unfoldable pub guarded_action :
    RotationSnapshot → Option RotationStepSnapshot → Number → RotationAction
guarded_action s step now =
    if not (is_finite now)
    then pause RotationPauseReason.invalid_snapshot
    else get_or (write_gate s) (phase_action s s.phase step now)

unfoldable pub next_rotation_action : RotationSnapshot → Number → RotationAction
unfolding current_step
next_rotation_action s now =
    if is_complete s.phase
    then RotationAction.complete
    else if is_abandoned (current_step s)
    then pause RotationPauseReason.cloud_not_applied
    else get_or (observation s.attempt (current_step s) now)
        (get_or (observe_publication s.publication) (guarded_action s (current_step s) now))
