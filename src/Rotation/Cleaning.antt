-- ===== src/Rotation/Cleaning.antt =====
-- When the old address is cleaned up, and when the rotation is complete.
use master_dns.Common.{
  ℕ, Bool, true, false, Option, none, some, String, ◌≡◌, refl, arith, get_or, Option-cases, ◌⊎◌,
  inl, inr,
}
use master_dns.Rotation.Snapshot.{
  Publication, Cleanup, RotationSnapshot, StepStatus, RotationAction, Attempt, CleanupPlan,
  RotationCandidate, RotationStepSnapshot, Phase,
}
use master_dns.Common.Number.{Number, less}
use master_dns.Rotation.Machine.{
  cloud_action, is_candidate_version, cleanup_action, next_rotation_action, publish_action,
  run_cleanup, is_complete, current_step, first_unapplied, phase_action,
}
use master_dns.Rotation.Gates.{attempt_gate, candidate_action, prepare}
use master_dns.Rotation.Steps.{
  AllApplied, IsNext, first_unapplied-AllApplied, first_unapplied-IsNext,
}
use master_dns.Rotation.Writes.{
  next_rotation_action-write, next_rotation_action-complete, guarded_action-complete,
}

-- The DNS records carry the current address version, which is the candidate's.
pub record IsPublished (s : RotationSnapshot) : Type 0 where
  pub version : ℕ
  pub applied : s.publication ≡ Publication.applied version
  pub current : version ≡ s.revisions.address
  pub of_candidate : is_candidate_version s.candidate version ≡ true

pub record RunsCleanup (s : RotationSnapshot) (now : Number) (attempt_id step_id : String)
    : Type 0 where
  pub published : IsPublished s
  pub plan : CleanupPlan
  pub is_required : s.cleanup ≡ Cleanup.required plan
  pub authorized : plan.authorized ≡ true
  pub owned : plan.ownership_verified ≡ true
  pub grace_over : less now plan.not_before ≡ false
  pub step : RotationStepSnapshot
  pub is_next : IsNext plan.steps step
  pub is_prepared : step.status ≡ StepStatus.prepared
  pub same_step : step.step_id ≡ step_id
  pub attempt : Attempt
  pub has_attempt : s.attempt ≡ some attempt
  pub same_attempt : attempt.attempt_id ≡ attempt_id

-- Nothing is left to clean up.
abbrev pub IsClean : Cleanup → Type 0
IsClean Cleanup.not_required = Unit
IsClean Cleanup.failed = ⊥
IsClean (Cleanup.required plan) = AllApplied plan.steps

abbrev is_cleanup : RotationAction → Bool
is_cleanup (RotationAction.cleanup attempt step) = true
is_cleanup RotationAction.complete = true
is_cleanup _ = false

prepare_no_cleanup : (s : RotationSnapshot) (now : Number) → is_cleanup (prepare s now) ≡ false
unfolding prepare attempt_gate
prepare_no_cleanup s now = ground arith

attempt_gate_no_cleanup :
    (s : RotationSnapshot) (now : Number) (attempt step : String)
    → is_cleanup (get_or (attempt_gate s now) (RotationAction.cloud_step attempt step)) ≡ false
unfolding attempt_gate
attempt_gate_no_cleanup s now attempt step = ground arith

cloud_no_cleanup :
    (s : RotationSnapshot) (attempt : Option Attempt) (step : Option RotationStepSnapshot)
    (now : Number)
    → is_cleanup (cloud_action s attempt step now) ≡ false
unfolding cloud_action
cloud_no_cleanup s none step now = prepare_no_cleanup s now
cloud_no_cleanup s (some att) none now = ground arith
cloud_no_cleanup s (some att) (some step) now =
    ground (arith, attempt_gate_no_cleanup s now att.attempt_id step.step_id)

candidate_no_cleanup :
    (s : RotationSnapshot) (c : Option RotationCandidate) (now : Number) (may_rotate : Bool)
    → is_cleanup (candidate_action s c now may_rotate) ≡ false
unfolding candidate_action
candidate_no_cleanup s none now may_rotate = refl
candidate_no_cleanup s (some c) now may_rotate = ground (arith, prepare_no_cleanup s now)

published-versions :
    (s : RotationSnapshot) (version : ℕ) (cleanup : Cleanup) (now : Number) {a : RotationAction}
    → s.publication ≡ Publication.applied version
    → s.cleanup ≡ cleanup
    → cleanup_action s (Publication.applied version) now ≡ a
    → is_cleanup a ≡ true
    → IsPublished s × (run_cleanup s cleanup now ≡ a)
unfolding cleanup_action
published-versions s version cleanup now p k e w = (
  record { version = version; applied = p; current = ground arith; of_candidate = ground arith },
  ground arith,
)

run_cleanup-runs :
    (s : RotationSnapshot) (now : Number) (attempt step : String) (cleanup : Cleanup)
    → IsPublished s
    → s.cleanup ≡ cleanup
    → run_cleanup s cleanup now ≡ RotationAction.cleanup attempt step
    → RunsCleanup s now attempt step
run_cleanup-runs s now attempt step Cleanup.failed p k e = cc
run_cleanup-runs s now attempt step Cleanup.not_required p k e = cc
run_cleanup-runs s now attempt step (Cleanup.required plan) p k e =
    elim (Option-cases (first_unapplied plan.steps)) [
      | inl done ↦ absurd (ground arith)
      | inr (x, is_x) ↦ elim (Option-cases s.attempt) [
        | inl missing ↦ absurd (ground arith)
        | inr (att, has) ↦ record {
          published = p;
          plan = plan;
          is_required = k;
          authorized = ground arith;
          owned = ground arith;
          grace_over = ground arith;
          step = x;
          is_next = first_unapplied-IsNext plan.steps x is_x;
          is_prepared = ground arith;
          same_step = ground arith;
          attempt = att;
          has_attempt = has;
          same_attempt = ground arith;
        }
      ]
    ]

run_cleanup-IsClean :
    (s : RotationSnapshot) (now : Number) (cleanup : Cleanup)
    → run_cleanup s cleanup now ≡ RotationAction.complete
    → IsClean cleanup
run_cleanup-IsClean s now Cleanup.failed e = cc
run_cleanup-IsClean s now Cleanup.not_required e = tt
run_cleanup-IsClean s now (Cleanup.required plan) e =
    first_unapplied-AllApplied plan.steps (ground arith)

cleanup_action-published :
    (s : RotationSnapshot) (now : Number) (publication : Publication) {a : RotationAction}
    → s.publication ≡ publication
    → cleanup_action s publication now ≡ a
    → is_cleanup a ≡ true
    → IsPublished s × (run_cleanup s s.cleanup now ≡ a)
unfolding cleanup_action
cleanup_action-published s now (Publication.applied version) p e w =
    published-versions s version s.cleanup now p refl e w
cleanup_action-published s now publication p e w = absurd (ground arith)

publish_action-published :
    (s : RotationSnapshot) (now : Number) (publication : Publication) {a : RotationAction}
    → s.publication ≡ publication
    → publish_action s publication now ≡ a
    → is_cleanup a ≡ true
    → IsPublished s × (run_cleanup s s.cleanup now ≡ a)
publish_action-published s now Publication.failed p e w = absurd (ground arith)
publish_action-published s now (Publication.applied version) p e w =
    cleanup_action-published s now (Publication.applied version) p e w
publish_action-published s now publication p e w =
    absurd (ground (arith, candidate_no_cleanup s s.candidate now false))

is_complete-eq : (phase : Phase) → is_complete phase ≡ true → phase ≡ Phase.complete
is_complete-eq phase e = ground arith

-- The phases in which the old address may be cleaned up.
abbrev pub InCleanup : Phase → Type 0
InCleanup phase = (phase ≡ Phase.publish) ⊎ (phase ≡ Phase.cleanup)

phase_action-published :
    (s : RotationSnapshot) (now : Number) (phase : Phase) (step : Option RotationStepSnapshot)
    {a : RotationAction}
    → is_complete phase ≡ false
    → phase_action s phase step now ≡ a
    → is_cleanup a ≡ true
    → InCleanup phase × IsPublished s × (run_cleanup s s.cleanup now ≡ a)
phase_action-published s now Phase.cloud step n e w =
    absurd (ground (arith, cloud_no_cleanup s s.attempt step now))
phase_action-published s now Phase.candidate step n e w =
    absurd (ground (arith, candidate_no_cleanup s s.candidate now true))
phase_action-published s now Phase.publish step n e w =
    let (p, r) = publish_action-published s now s.publication refl e w in (inl refl, p, r)
phase_action-published s now Phase.cleanup step n e w =
    let (p, r) = cleanup_action-published s now s.publication refl e w in (inr refl, p, r)
phase_action-published s now Phase.complete step n e w = cc

-- A cleanup step is started only in the publish or cleanup phase, once the DNS records carry the
-- current address version, which is the candidate's; the cleanup is required, authorized, of
-- verified ownership and past its grace period; and the step is the first that is not applied, was
-- never sent, and goes under the attempt of the snapshot.
pub cleanup_runs_guarded :
    (s : RotationSnapshot) (now : Number) (attempt step : String)
    → next_rotation_action s now ≡ RotationAction.cleanup attempt step
    → InCleanup s.phase × RunsCleanup s now attempt step
cleanup_runs_guarded s now attempt step e =
    let g = next_rotation_action-write s now e refl in
    let (phase, p, r) =
      phase_action-published s now s.phase (current_step s) g.not_complete g.by_phase refl in
    (phase, run_cleanup-runs s now attempt step s.cleanup p refl r)

-- A rotation ends only if its phase says so, or in the publish or cleanup phase once the DNS records
-- carry the current address version, which is the candidate's, and no cleanup is required or every
-- step of it is applied.
pub complete_only_after_cleanup :
    (s : RotationSnapshot) (now : Number)
    → next_rotation_action s now ≡ RotationAction.complete
    → (s.phase ≡ Phase.complete) ⊎ (InCleanup s.phase × IsPublished s × IsClean s.cleanup)
complete_only_after_cleanup s now e = elim (next_rotation_action-complete s now e) [
  | inl over ↦ inl (is_complete-eq s.phase over)
  | inr (running, act) ↦
      let (phase, p, r) =
        phase_action-published s now s.phase (current_step s) running
          (guarded_action-complete s now act) refl in
      inr (phase, p, run_cleanup-IsClean s now s.cleanup r)
]
