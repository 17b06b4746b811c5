-- ===== src/Rotation/Publishing.antt =====
-- When a candidate address is sent to DNS.
use master_dns.Common.{
  ℕ, Bool, true, false, Option, none, some, ◌≡◌, ◌⊎◌, refl, arith, inl, inr, get_or, sym, ◌∙◌,
}
use master_dns.Rotation.Snapshot.{
  Phase, Publication, RotationSnapshot, PublishMode, RotationAction, Attempt, RotationCandidate,
  RotationStepSnapshot,
}
use master_dns.Common.Number.{Number, at_most}
use master_dns.Rotation.Machine.{
  cleanup_action, cloud_action, next_rotation_action, publish_action, current_step, phase_action,
}
use master_dns.Rotation.Gates.{
  attempt_gate, candidate_action, judge_candidate, prepare, proves_success,
}
use master_dns.Rotation.Attempts.{HasEvidence, proves_success-HasEvidence}
use master_dns.Rotation.Writes.{next_rotation_action-write}
use master_dns.Consensus.{RoundDecision}

-- The candidate's success is confirmed at the current address version.
pub record HasSucceeded (s : RotationSnapshot) (now : Number) (version : ℕ) : Type 0 where
  pub candidate : RotationCandidate
  pub is_candidate : s.candidate ≡ some candidate
  pub this_version : candidate.address_version ≡ version
  pub current : version ≡ s.revisions.address
  pub evidence : HasEvidence candidate now RoundDecision.success
  pub enough : at_most candidate.success_threshold evidence.latest.consecutive_successes ≡ true

abbrev is_dispatch : RotationAction → Bool
is_dispatch (RotationAction.publish PublishMode.dispatch version) = true
is_dispatch _ = false

prepare_no_dispatch : (s : RotationSnapshot) (now : Number) → is_dispatch (prepare s now) ≡ false
unfolding prepare attempt_gate
prepare_no_dispatch s now = ground arith

attempt_gate_no_dispatch :
    (s : RotationSnapshot) (now : Number)
    → is_dispatch (get_or (attempt_gate s now) RotationAction.complete) ≡ false
unfolding attempt_gate
attempt_gate_no_dispatch s now = ground arith

cloud_no_dispatch :
    (s : RotationSnapshot) (attempt : Option Attempt) (step : Option RotationStepSnapshot)
    (now : Number)
    → is_dispatch (cloud_action s attempt step now) ≡ false
unfolding cloud_action
cloud_no_dispatch s none step now = prepare_no_dispatch s now
cloud_no_dispatch s (some att) step now = ground (arith, attempt_gate_no_dispatch s now)

cleanup_no_dispatch :
    (s : RotationSnapshot) (p : Publication) (now : Number)
    → is_dispatch (cleanup_action s p now) ≡ false
unfolding cleanup_action
cleanup_no_dispatch s p now = ground arith

judge_dispatch :
    (s : RotationSnapshot) (now : Number) (version : ℕ) (c : RotationCandidate) (may_rotate : Bool)
    → judge_candidate s c now may_rotate ≡ RotationAction.publish PublishMode.dispatch version
    → (c.address_version ≡ version)
      × (c.address_version ≡ s.revisions.address)
      × (proves_success c c.evidence now ≡ true)
unfolding judge_candidate
judge_dispatch s now version c may_rotate e = ground (arith, prepare_no_dispatch s now)

candidate_dispatch :
    (s : RotationSnapshot) (now : Number) (version : ℕ) (candidate : Option RotationCandidate)
    (may_rotate : Bool)
    → s.candidate ≡ candidate
    → candidate_action s candidate now may_rotate
      ≡ RotationAction.publish PublishMode.dispatch version
    → HasSucceeded s now version
unfolding candidate_action
candidate_dispatch s now version none may_rotate f e = absurd (ground arith)
candidate_dispatch s now version (some c) may_rotate f e =
    let (this_one, current, succeeds) = judge_dispatch s now version c may_rotate e in
    let (evidence, enough) = proves_success-HasEvidence c now c.evidence refl succeeds in
    record {
      candidate = c;
      is_candidate = f;
      this_version = this_one;
      current = sym this_one ∙ current;
      evidence = evidence;
      enough = enough;
    }

publish_dispatch :
    (s : RotationSnapshot) (now : Number) (version : ℕ) (p : Publication)
    → publish_action s p now ≡ RotationAction.publish PublishMode.dispatch version
    → HasSucceeded s now version
publish_dispatch s now version Publication.failed e = cc
publish_dispatch s now version (Publication.applied v) e =
    absurd (ground (arith, cleanup_no_dispatch s (Publication.applied v) now))
publish_dispatch s now version p e = candidate_dispatch s now version s.candidate false refl e

-- The phases in which a candidate may be published.
abbrev pub InPublishing : Phase → Type 0
InPublishing phase = (phase ≡ Phase.candidate) ⊎ (phase ≡ Phase.publish)

phase_dispatch :
    (s : RotationSnapshot) (now : Number) (version : ℕ) (phase : Phase)
    (step : Option RotationStepSnapshot)
    → phase_action s phase step now ≡ RotationAction.publish PublishMode.dispatch version
    → InPublishing phase × HasSucceeded s now version
phase_dispatch s now version Phase.cloud step e =
    absurd (ground (arith, cloud_no_dispatch s s.attempt step now))
phase_dispatch s now version Phase.candidate step e =
    (inl refl, candidate_dispatch s now version s.candidate true refl e)
phase_dispatch s now version Phase.publish step e =
    (inr refl, publish_dispatch s now version s.publication e)
phase_dispatch s now version Phase.cleanup step e =
    absurd (ground (arith, cleanup_no_dispatch s s.publication now))
phase_dispatch s now version Phase.complete step e = cc

-- An address version is dispatched to DNS only in the candidate or publish phase, for the candidate
-- of the current address version, when its latest round is a success for this address and probe
-- configuration, was observed by now, has not expired, and reached the success threshold.
pub dispatch_needs_fresh_success :
    (s : RotationSnapshot) (now : Number) (version : ℕ)
    → next_rotation_action s now ≡ RotationAction.publish PublishMode.dispatch version
    → InPublishing s.phase × HasSucceeded s now version
dispatch_needs_fresh_success s now version e =
    phase_dispatch s now version s.phase (current_step s)
      (next_rotation_action-write s now e refl).by_phase
