-- ===== src/Rotation/Steps.antt =====
-- Which cloud step is executed, and when.
use master_dns.Common.{
  true, false, Option, none, some, List, [], ◌∷◌, ◌++◌, String, ◌≡◌, ◌⊎◌, refl, arith, Bool-cases,
  inl, inr, ap, ◌≢◌, Bool, get_or,
}
use master_dns.Common.Number.{Number, less}
use master_dns.Rotation.Snapshot.{
  StepStatus, Phase, RotationSnapshot, cloud_step, Attempt, RotationStepSnapshot, Publication,
  RotationAction, RotationCandidate,
}
use master_dns.Rotation.Machine.{
  cleanup_action, first_unapplied, is_applied, phase_action, observe_step, current_step,
  cloud_action, next_rotation_action, steps_of, observation, is_abandoned,
}
use master_dns.Rotation.Gates.{candidate_action, is_retryable, prepare, attempt_gate, step_gate}
use master_dns.Common.Text.{str_eq, str_eq_iff}
use master_dns.Rotation.Writes.{next_rotation_action-write}

abbrev pub AllApplied : List RotationStepSnapshot → Type 0
AllApplied [] = Unit
AllApplied (step ∷ steps) = (step.status ≡ StepStatus.applied) × AllApplied steps

-- `step` is the first that is not applied.
pub record IsNext (steps : List RotationStepSnapshot) (step : RotationStepSnapshot) : Type 0 where
  pub before : List RotationStepSnapshot
  pub after : List RotationStepSnapshot
  pub split : steps ≡ before ++ (step ∷ after)
  pub all_applied : AllApplied before
  pub unapplied : step.status ≢ StepStatus.applied

is_applied-eq : (status : StepStatus) → is_applied status ≡ true → status ≡ StepStatus.applied
is_applied-eq status h = ground arith

pub first_unapplied-IsNext :
    (steps : List RotationStepSnapshot) (step : RotationStepSnapshot)
    → first_unapplied steps ≡ some step
    → IsNext steps step
first_unapplied-IsNext [] step h = cc
first_unapplied-IsNext (x ∷ xs) step h = elim (Bool-cases (is_applied x.status)) [
  | inl done ↦
      let rest = first_unapplied-IsNext xs step (ground arith) in
      record {
        before = x ∷ rest.before;
        after = rest.after;
        split = ap (◌∷◌ x) rest.split;
        all_applied = (is_applied-eq x.status done, rest.all_applied);
        unapplied = rest.unapplied;
      }
  | inr here ↦ record {
    before = [];
    after = xs;
    split = ground arith;
    all_applied = tt;
    unapplied = ground arith;
  }
]

pub first_unapplied-AllApplied :
    (steps : List RotationStepSnapshot) → first_unapplied steps ≡ none → AllApplied steps
first_unapplied-AllApplied [] h = tt
first_unapplied-AllApplied (x ∷ xs) h = elim (Bool-cases (is_applied x.status)) [
  | inl done ↦ (is_applied-eq x.status done, first_unapplied-AllApplied xs (ground arith))
  | inr here ↦ absurd (ground arith)
]

-- A step may be sent to the cloud if it never was, or if the cloud rejected it without any effect
-- for a passing reason and its retry time has come.
abbrev pub MayRun : StepStatus → Number → Type 0
MayRun StepStatus.prepared now = Unit
MayRun (StepStatus.rejected_no_effect reason (some retry_at)) now =
    (is_retryable reason ≡ true) × (less now retry_at ≡ false)
MayRun status now = ⊥

pub record RunsStep (s : RotationSnapshot) (now : Number) (attempt_id step_id : String)
    : Type 0 where
  pub in_cloud : s.phase ≡ Phase.cloud
  pub attempt : Attempt
  pub has_attempt : s.attempt ≡ some attempt
  pub same_attempt : attempt.attempt_id ≡ attempt_id
  pub same_segment : attempt.segment_id ≡ s.budget.segment_id
  pub step : RotationStepSnapshot
  pub same_step : step.step_id ≡ step_id
  pub is_next : IsNext attempt.steps step
  pub may_run : MayRun step.status now
  pub paid : (attempt.charged ≡ true) ⊎ (attempt_gate s now ≡ none)

abbrev is_cloud_step : RotationAction → Bool
is_cloud_step (cloud_step attempt step) = true
is_cloud_step _ = false

prepare_no_step : (s : RotationSnapshot) (now : Number) → is_cloud_step (prepare s now) ≡ false
unfolding prepare attempt_gate
prepare_no_step s now = ground arith

candidate_no_step :
    (s : RotationSnapshot) (c : Option RotationCandidate) (now : Number) (may_rotate : Bool)
    → is_cloud_step (candidate_action s c now may_rotate) ≡ false
unfolding candidate_action
candidate_no_step s none now may_rotate = refl
candidate_no_step s (some c) now may_rotate = ground (arith, prepare_no_step s now)

cleanup_no_step :
    (s : RotationSnapshot) (p : Publication) (now : Number)
    → is_cloud_step (cleanup_action s p now) ≡ false
unfolding cleanup_action
cleanup_no_step s p now = ground arith

cloud_step_phase :
    (s : RotationSnapshot) (phase : Phase) (step : Option RotationStepSnapshot) (now : Number)
    → is_cloud_step (phase_action s phase step now) ≡ true
    → phase ≡ Phase.cloud
cloud_step_phase s Phase.cloud step now e = refl
cloud_step_phase s Phase.candidate step now e =
    ground (arith, candidate_no_step s s.candidate now true)
cloud_step_phase s Phase.publish step now e =
    ground (arith, candidate_no_step s s.candidate now false, cleanup_no_step s s.publication now)
cloud_step_phase s Phase.cleanup step now e = ground (arith, cleanup_no_step s s.publication now)
cloud_step_phase s Phase.complete step now e = cc

step_gate-MayRun :
    (attempt : Attempt) (step : RotationStepSnapshot) (status : StepStatus) (now : Number)
    → status ≢ StepStatus.applied
    → status ≢ StepStatus.abandoned
    → observe_step attempt step status now ≡ none
    → step_gate status now ≡ none
    → MayRun status now
step_gate-MayRun attempt step status now ne1 ne2 o g = ground arith

cloud_step-current :
    (s : RotationSnapshot) (now : Number) (a i : String)
    → next_rotation_action s now ≡ cloud_step a i
    → (s.phase ≡ Phase.cloud)
      × (cloud_action s s.attempt (first_unapplied (steps_of s.attempt)) now ≡ cloud_step a i)
      × (observation s.attempt (first_unapplied (steps_of s.attempt)) now ≡ none)
      × (is_abandoned (first_unapplied (steps_of s.attempt)) ≡ false)
unfolding current_step
cloud_step-current s now a i e =
    let g = next_rotation_action-write s now e refl in
    let in_cloud = cloud_step_phase s s.phase (current_step s) now (rw g.by_phase) in
    (in_cloud, ground arith, ground arith, ground arith)

attempt_gate_no_step :
    (s : RotationSnapshot) (now : Number)
    → is_cloud_step (get_or (attempt_gate s now) RotationAction.complete) ≡ false
unfolding attempt_gate
attempt_gate_no_step s now = ground arith

run_step-runs :
    (s : RotationSnapshot) (attempt : Attempt) (step : Option RotationStepSnapshot) (now : Number)
    (a i : String)
    → cloud_action s (some attempt) step now ≡ cloud_step a i
    → (str_eq attempt.segment_id s.budget.segment_id ≡ true)
      × (attempt.attempt_id ≡ a)
      × (x : RotationStepSnapshot) × (step ≡ some x)
      × (x.step_id ≡ i)
      × (step_gate x.status now ≡ none)
      × ((attempt.charged ≡ true) ⊎ (attempt_gate s now ≡ none))
unfolding cloud_action
run_step-runs s attempt none now a i e = absurd (ground arith)
run_step-runs s attempt (some x) now a i e = (
  ground arith,
  ground (arith, attempt_gate_no_step s now),
  x,
  refl,
  ground (arith, attempt_gate_no_step s now),
  ground arith,
  ground (arith, attempt_gate_no_step s now),
)

gated :
    (s : RotationSnapshot) (x : RotationStepSnapshot) (att : Attempt) (now : Number)
    → IsNext att.steps x
    → observation (some att) (some x) now ≡ none
    → is_abandoned (some x) ≡ false
    → step_gate x.status now ≡ none
    → MayRun x.status now
gated s x att now n o ab g = step_gate-MayRun att x x.status now n.unapplied (ground arith) o g

runs :
    (s : RotationSnapshot) (now : Number) (a i : String) (attempt : Option Attempt)
    → s.attempt ≡ attempt
    → s.phase ≡ Phase.cloud
    → cloud_action s attempt (first_unapplied (steps_of attempt)) now ≡ cloud_step a i
    → observation attempt (first_unapplied (steps_of attempt)) now ≡ none
    → is_abandoned (first_unapplied (steps_of attempt)) ≡ false
    → RunsStep s now a i
unfolding cloud_action
runs s now a i none has ph e o ab = absurd (ground (arith, prepare_no_step s now))
runs s now a i (some att) has ph e o ab =
    let (seg, same, x, is_x, same_x, gate, paid) =
      run_step-runs s att (first_unapplied att.steps) now a i e in
    let next = first_unapplied-IsNext att.steps x is_x in
    record {
      in_cloud = ph;
      attempt = att;
      has_attempt = has;
      same_attempt = same;
      same_segment = (str_eq_iff _ _).0 seg;
      step = x;
      same_step = same_x;
      is_next = next;
      may_run = gated s x att now next (rw is_x at o) (rw is_x at ab) gate;
      paid = paid;
    }

-- The step that is sent to the cloud belongs to the attempt of the cloud phase, in the current
-- budget segment. It is the first step not yet applied; it was never sent, or it was rejected
-- without effect for a passing reason and its retry time has come; and an attempt that is not
-- charged yet passes the budget's gate.
pub cloud_step_runs_next :
    (s : RotationSnapshot) (now : Number) (a i : String)
    → next_rotation_action s now ≡ cloud_step a i
    → RunsStep s now a i
cloud_step_runs_next s now a i e =
    let (ph, act, o, ab) = cloud_step-current s now a i e in
    runs s now a i s.attempt refl ph act o ab
