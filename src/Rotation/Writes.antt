-- ===== src/Rotation/Writes.antt =====
-- Every action that changes something passes the write gate first.
use master_dns.Common.{
  Bool, true, false, Option, none, some, ◌≡◌, refl, arith, inl, inr, Option-cases, ◌≢◌, ◌⊎◌,
}
use master_dns.Common.Number.{Number, is_finite}
use master_dns.Rotation.Snapshot.{
  RotationSnapshot, PublishMode, RotationAction, prepare_attempt, cloud_step, Attempt,
  RotationStepSnapshot,
}
use master_dns.Rotation.Machine.{
  guarded_action, next_rotation_action, current_step, observation, phase_action, is_abandoned,
  observe_publication, is_complete,
}
use master_dns.Rotation.Gates.{write_gate}

-- The actions that write to the cloud, to the DNS provider, or that open a new attempt.
abbrev pub is_write : RotationAction → Bool
is_write (prepare_attempt segment) = true
is_write (cloud_step attempt step) = true
is_write (RotationAction.publish PublishMode.dispatch version) = true
is_write (RotationAction.cleanup attempt step) = true
is_write _ = false

-- What the write gate asks of a snapshot.
pub record IsAuthorized (s : RotationSnapshot) : Type 0 where
  pub not_blocked : s.authorization.lifecycle_blocked ≡ false
  pub managed : s.authorization.managed ≡ true
  pub family_enabled : s.authorization.family_enabled ≡ true
  pub present : s.authorization.present ≡ true
  pub region_allowed : s.authorization.region_allowed ≡ true
  pub no_conflict : s.authorization.conflicting_manager ≡ false
  pub same_authorization : s.revisions.authorization ≡ s.expected_revisions.authorization
  pub same_policy : s.revisions.policy ≡ s.expected_revisions.policy
  pub same_address : s.revisions.address ≡ s.expected_revisions.address
  pub lease_held : s.lease.held ≡ true
  pub lease_current : s.lease.revision ≡ s.lease.expected_revision

write_gate-IsAuthorized : (s : RotationSnapshot) → write_gate s ≡ none → IsAuthorized s
unfolding write_gate
write_gate-IsAuthorized s h = ground arith

write_gate_no_write :
    (s : RotationSnapshot) {a : RotationAction} → write_gate s ≡ some a → is_write a ≡ false
unfolding write_gate
write_gate_no_write s h = ground arith

observation_no_write :
    (attempt : Option Attempt) (step : Option RotationStepSnapshot) (now : Number)
    {a : RotationAction}
    → observation attempt step now ≡ some a
    → is_write a ≡ false
observation_no_write attempt step now h = ground arith

-- A write is what the phase asks for, where nothing is left to observe and the write gate is open.
pub record IsGuarded (s : RotationSnapshot) (now : Number) (a : RotationAction) : Type 0 where
  pub not_complete : is_complete s.phase ≡ false
  pub not_abandoned : is_abandoned (current_step s) ≡ false
  pub observed : observation s.attempt (current_step s) now ≡ none
  pub published : observe_publication s.publication ≡ none
  pub gate_open : write_gate s ≡ none
  pub finite_now : is_finite now ≡ true
  pub by_phase : phase_action s s.phase (current_step s) now ≡ a

guarded_action-write :
    (s : RotationSnapshot) (now : Number) {a : RotationAction}
    → guarded_action s (current_step s) now ≡ a
    → is_write a ≡ true
    → (write_gate s ≡ none)
      × (is_finite now ≡ true)
      × (phase_action s s.phase (current_step s) now ≡ a)
unfolding guarded_action
guarded_action-write s now e w = elim (Option-cases (write_gate s)) [
  | inl passed ↦ ground arith
  | inr (b, shut) ↦ ground (arith, write_gate_no_write s shut)
]

unguarded :
    (s : RotationSnapshot) (now : Number) {a : RotationAction}
    → next_rotation_action s now ≡ a
    → is_write a ≡ true
    → (is_complete s.phase ≡ false)
      × (is_abandoned (current_step s) ≡ false)
      × (observation s.attempt (current_step s) now ≡ none)
      × (observe_publication s.publication ≡ none)
      × (guarded_action s (current_step s) now ≡ a)
unfolding next_rotation_action
unguarded s now e w = ground (arith, observation_no_write s.attempt (current_step s) now)

pub next_rotation_action-write :
    (s : RotationSnapshot) (now : Number) {a : RotationAction}
    → next_rotation_action s now ≡ a
    → is_write a ≡ true
    → IsGuarded s now a
next_rotation_action-write s now e w =
    let (running, kept, seen, idle, rest) = unguarded s now e w in
    let (passed, finite, act) = guarded_action-write s now rest w in
    record {
      not_complete = running;
      not_abandoned = kept;
      observed = seen;
      published = idle;
      gate_open = passed;
      finite_now = finite;
      by_phase = act;
    }

write_gate_no_complete :
    (s : RotationSnapshot) {a : RotationAction}
    → write_gate s ≡ some a
    → a ≢ RotationAction.complete
unfolding write_gate
write_gate_no_complete s h = ground arith

pub guarded_action-complete :
    (s : RotationSnapshot) (now : Number)
    → guarded_action s (current_step s) now ≡ RotationAction.complete
    → phase_action s s.phase (current_step s) now ≡ RotationAction.complete
unfolding guarded_action
guarded_action-complete s now e = elim (Option-cases (write_gate s)) [
  | inl passed ↦ ground arith
  | inr (b, shut) ↦ absurd (write_gate_no_complete s shut (ground arith))
]

-- A rotation that is not complete yet completes only by its phase.
pub next_rotation_action-complete :
    (s : RotationSnapshot) (now : Number)
    → next_rotation_action s now ≡ RotationAction.complete
    → (is_complete s.phase ≡ true)
      ⊎ ((is_complete s.phase ≡ false)
          × (guarded_action s (current_step s) now ≡ RotationAction.complete))
unfolding next_rotation_action
next_rotation_action-complete s now e = ground arith

-- Whenever the next action is a write (a new attempt, a cloud step, a DNS dispatch or a cleanup),
-- the current time is finite, the authorization holds with no conflicting manager and no lifecycle
-- operation, the three revisions are those expected, and the lease is held at its expected revision.
pub writes_pass_gate :
    (s : RotationSnapshot) (now : Number)
    → is_write (next_rotation_action s now) ≡ true
    → (is_finite now ≡ true) × IsAuthorized s
writes_pass_gate s now w =
    let g = next_rotation_action-write s now refl w in
    (g.finite_now, write_gate-IsAuthorized s g.gate_open)
