-- ===== src/Rotation/Attempts.antt =====
-- When a new attempt is opened, and when a candidate is sent to DNS.
use master_dns.Common.{
  ℕ, true, false, Option, none, some, ◌≡◌, arith, ◌<◌, String, get_or, Bool, ◌⊎◌, inl, inr, ◌≢◌,
  refl,
}
use master_dns.Common.Number.{Number, num, less, at_most}
use master_dns.Rotation.Snapshot.{
  RotationSnapshot, RotationCandidate, Evidence, Phase, RotationAction, Attempt, Publication,
  RotationStepSnapshot, prepare_attempt,
}
use master_dns.Rotation.Machine.{
  cleanup_action, cloud_action, next_rotation_action, phase_action, current_step, publish_action,
}
use master_dns.Rotation.Gates.{
  attempt_gate, proves_failure, proves_success, candidate_action, is_charged, judge_candidate,
  prepare,
}
use master_dns.Consensus.{RoundDecision}
use master_dns.Rotation.Writes.{next_rotation_action-write}

-- The attempts used and allowed are whole numbers, one more is allowed, and the pause between
-- attempts is over.
pub record InBudget (s : RotationSnapshot) (now : Number) : Type 0 where
  pub used : ℕ
  pub allowed : ℕ
  pub is_used : s.budget.attempts_used ≡ num used
  pub is_allowed : s.budget.max_attempts ≡ num allowed
  pub room : used < allowed
  pub open_segment : s.budget.exhausted ≡ false
  pub rested : less now s.next_attempt_at ≡ false

attempt_gate-InBudget :
    (s : RotationSnapshot) (now used allowed : Number)
    → s.budget.attempts_used ≡ used
    → s.budget.max_attempts ≡ allowed
    → attempt_gate s now ≡ none
    → InBudget s now
unfolding attempt_gate
attempt_gate-InBudget s now (num used) (num allowed) u a g = record {
  used = used;
  allowed = allowed;
  is_used = u;
  is_allowed = a;
  room = ground arith;
  open_segment = ground arith;
  rested = ground arith;
}
attempt_gate-InBudget s now used allowed u a g = absurd (ground arith)

-- The candidate's latest round decided `d`, for this address and probe configuration, and holds now.
pub record HasEvidence (c : RotationCandidate) (now : Number) (d : RoundDecision) : Type 0 where
  pub latest : Evidence
  pub found : c.evidence ≡ some latest
  pub same_version : latest.address_version ≡ c.address_version
  pub same_config : latest.probe_config_revision ≡ c.probe_config_revision
  pub seen : at_most latest.observed_at now ≡ true
  pub unexpired : less now latest.expires_at ≡ true
  pub decided : latest.decision ≡ d

pub proves_success-HasEvidence :
    (c : RotationCandidate) (now : Number) (e : Option Evidence)
    → c.evidence ≡ e
    → proves_success c e now ≡ true
    → (h : HasEvidence c now RoundDecision.success) × (at_most c.success_threshold
          h.latest.consecutive_successes
        ≡ true)
unfolding proves_success
proves_success-HasEvidence c now none f h = absurd (ground arith)
proves_success-HasEvidence c now (some e) f h = (
  record {
    latest = e;
    found = f;
    same_version = ground arith;
    same_config = ground arith;
    seen = ground arith;
    unexpired = ground arith;
    decided = ground arith;
  },
  ground arith,
)

proves_failure-HasEvidence :
    (c : RotationCandidate) (now : Number) (e : Option Evidence)
    → c.evidence ≡ e
    → proves_failure c e now ≡ true
    → (h : HasEvidence c now RoundDecision.failure) × (at_most c.failure_threshold
          h.latest.consecutive_failures
        ≡ true)
unfolding proves_failure
proves_failure-HasEvidence c now none f h = absurd (ground arith)
proves_failure-HasEvidence c now (some e) f h = (
  record {
    latest = e;
    found = f;
    same_version = ground arith;
    same_config = ground arith;
    seen = ground arith;
    unexpired = ground arith;
    decided = ground arith;
  },
  ground arith,
)

-- The candidate's failure is confirmed, and the attempt that made it was charged.
pub record HasFailed (s : RotationSnapshot) (now : Number) : Type 0 where
  pub candidate : RotationCandidate
  pub is_candidate : s.candidate ≡ some candidate
  pub current : candidate.address_version ≡ s.revisions.address
  pub evidence : HasEvidence candidate now RoundDecision.failure
  pub enough : at_most candidate.failure_threshold evidence.latest.consecutive_failures ≡ true
  pub charged : is_charged s.attempt ≡ true

-- Why a new attempt is opened: there is none yet, or the candidate of the last one has failed.
abbrev pub NeedsAttempt : RotationSnapshot → Number → Type 0
NeedsAttempt s now =
    ((s.phase ≡ Phase.cloud) × (s.attempt ≡ none)) ⊎ ((s.phase ≡ Phase.candidate) × HasFailed s now)

abbrev is_prepare : RotationAction → Bool
is_prepare (prepare_attempt segment) = true
is_prepare _ = false

attempt_gate_no_prepare :
    (s : RotationSnapshot) (now : Number)
    → is_prepare (get_or (attempt_gate s now) RotationAction.complete) ≡ false
unfolding attempt_gate
attempt_gate_no_prepare s now = ground arith

prepare-open :
    (s : RotationSnapshot) (now : Number) (segment : String)
    → prepare s now ≡ prepare_attempt segment
    → (attempt_gate s now ≡ none) × (segment ≡ s.budget.segment_id)
unfolding prepare
prepare-open s now segment e = ground (arith, attempt_gate_no_prepare s now)

cloud_prepare :
    (s : RotationSnapshot) (now : Number) (segment : String) (attempt : Option Attempt)
    (step : Option RotationStepSnapshot)
    → cloud_action s attempt step now ≡ prepare_attempt segment
    → (attempt ≡ none) × (prepare s now ≡ prepare_attempt segment)
unfolding cloud_action
cloud_prepare s now segment none step e = (refl, e)
cloud_prepare s now segment (some att) step e =
    absurd (ground (arith, attempt_gate_no_prepare s now))

judge_prepare :
    (s : RotationSnapshot) (now : Number) (segment : String) (c : RotationCandidate)
    (may_rotate : Bool)
    → judge_candidate s c now may_rotate ≡ prepare_attempt segment
    → (may_rotate ≡ true)
      × (c.address_version ≡ s.revisions.address)
      × (proves_failure c c.evidence now ≡ true)
      × (is_charged s.attempt ≡ true)
      × (prepare s now ≡ prepare_attempt segment)
unfolding judge_candidate
judge_prepare s now segment c may_rotate e = ground arith

cleanup_no_prepare :
    (s : RotationSnapshot) (p : Publication) (now : Number)
    → is_prepare (cleanup_action s p now) ≡ false
unfolding cleanup_action
cleanup_no_prepare s p now = ground arith

candidate_prepare :
    (s : RotationSnapshot) (now : Number) (segment : String) (candidate : Option RotationCandidate)
    (may_rotate : Bool)
    → s.candidate ≡ candidate
    → candidate_action s candidate now may_rotate ≡ prepare_attempt segment
    → (may_rotate ≡ true) × HasFailed s now × (prepare s now ≡ prepare_attempt segment)
unfolding candidate_action
candidate_prepare s now segment none may_rotate f e = absurd (ground arith)
candidate_prepare s now segment (some c) may_rotate f e =
    let (may, current, fails, charged, open_it) = judge_prepare s now segment c may_rotate e in
    let (evidence, enough) = proves_failure-HasEvidence c now c.evidence refl fails in
    (
      may,
      record {
        candidate = c;
        is_candidate = f;
        current = current;
        evidence = evidence;
        enough = enough;
        charged = charged;
      },
      open_it,
    )

phase_prepare :
    (s : RotationSnapshot) (now : Number) (segment : String) (phase : Phase)
    (step : Option RotationStepSnapshot)
    → s.phase ≡ phase
    → phase_action s phase step now ≡ prepare_attempt segment
    → NeedsAttempt s now × (prepare s now ≡ prepare_attempt segment)
phase_prepare s now segment Phase.cloud step ph e =
    let (missing, p) = cloud_prepare s now segment s.attempt step e in (inl (ph, missing), p)
phase_prepare s now segment Phase.candidate step ph e =
    let (may, failed, p) = candidate_prepare s now segment s.candidate true refl e in
    (inr (ph, failed), p)
phase_prepare s now segment Phase.publish step ph e = absurd (never s.publication e)
  where
    never : (p : Publication) → publish_action s p now ≢ prepare_attempt segment
    never Publication.failed q = cc
    never (Publication.applied version) q =
        ground (arith, cleanup_no_prepare s (Publication.applied version) now)
    never p q = cc ((candidate_prepare s now segment s.candidate false refl q).0)
phase_prepare s now segment Phase.cleanup step ph e =
    absurd (ground (arith, cleanup_no_prepare s s.publication now))
phase_prepare s now segment Phase.complete step ph e = cc

-- A new attempt is opened only in the current budget segment and within the budget (whole numbers,
-- fewer used than allowed, not marked exhausted, the pause between attempts over), and only because
-- there is no attempt yet in the cloud phase or because the candidate of a charged attempt failed:
-- fresh rounds for this address and probe configuration reached the failure threshold. A probe
-- window that ends, or rounds that are missing, undecided or stale, never open an attempt.
pub prepare_attempt_within_budget :
    (s : RotationSnapshot) (now : Number) (segment : String)
    → next_rotation_action s now ≡ prepare_attempt segment
    → (segment ≡ s.budget.segment_id) × InBudget s now × NeedsAttempt s now
prepare_attempt_within_budget s now segment e =
    let g = next_rotation_action-write s now e refl in
    let (needs, p) = phase_prepare s now segment s.phase (current_step s) refl g.by_phase in
    let (passed, same) = prepare-open s now segment p in
    (same, attempt_gate-InBudget s now _ _ refl refl passed, needs)
