-- ===== src/Incidents/Resuming.antt =====
-- `resumeRotationIncident`.
use master_dns.Common.{
  ℕ, Bool, true, false, not, ◌&&◌, Option, none, some, ◌∷◌, String, find, filter, all, update_where,
  Result, ok, err, ◌>>=◌, ◌>>◌, throw_if, if◌then◌else◌,
}
use master_dns.Common.Text.{str_eq}
use master_dns.Cloud.Types.{is_present}
use master_dns.Schedules.Types.{IncidentStatus, active, is_complete}
use master_dns.Incidents.Types.{
  RotationContext, address_version, HealthRevisions, IncidentPhase, RotationIncident, AttemptStatus,
  RotationAttempt, RotationStepStatus, prepared, applied, not_applied, rejected_no_effect,
  RotationStep, RotationLease, Tables, Surroundings,
}
use master_dns.Incidents.Policy.{is_manual, rotation_authorization_error}
use master_dns.Incidents.Evidence.{HealthTables, lock_rotation_health, health_revisions}
use master_dns.Incidents.Opening.{throw_error, policy_of, revision_of, new_segment}

abbrev pub is_cloud : IncidentPhase → Bool
is_cloud IncidentPhase.cloud = true
is_cloud _ = false

abbrev pub is_active : IncidentStatus → Bool
is_active active = true
is_active _ = false

-- A step whose effect is known, or that was never sent.
abbrev pub is_conclusive : RotationStepStatus → Bool
is_conclusive prepared = true
is_conclusive rejected_no_effect = true
is_conclusive not_applied = true
is_conclusive applied = true
is_conclusive _ = false

abbrev pub is_retried : RotationStepStatus → Bool
is_retried rejected_no_effect = true
is_retried not_applied = true
is_retried _ = false

-- The receipt of a step that was not applied goes with its retry.
abbrev pub retry_receipt_of : RotationStepStatus → (receipt stored : Option String) → Option String
retry_receipt_of not_applied (some receipt) stored = some receipt
retry_receipt_of _ receipt stored = stored

abbrev pub reprepare : ℕ → RotationStep → RotationStep
reprepare now step = record step {
  status = RotationStepStatus.prepared;
  retry_receipt = retry_receipt_of step.status step.receipt step.retry_receipt;
  error_code = none;
  retry_at = none;
  updated_at = now;
}

abbrev pub is_of_attempt : String → RotationStep → Bool
is_of_attempt id step = str_eq step.attempt_id id

abbrev pub find_attempt : Tables → Option String → Option RotationAttempt
find_attempt t none = none
find_attempt t (some id) = find (λ a. str_eq a.id id) t.attempts

abbrev pub is_charged : Option RotationAttempt → Bool
is_charged none = false
is_charged (some attempt) = attempt.charged

-- The charged attempt of the cloud phase goes on; any other one is abandoned.
abbrev pub settle_attempt : (continuing : Bool) → ℕ → RotationAttempt → Tables → Tables
settle_attempt false now attempt t = record t {
  attempts =
      update_where (λ a. str_eq a.id attempt.id)
        (λ a. record a { status = AttemptStatus.abandoned }) t.attempts;
}
settle_attempt true now attempt t = record t {
  steps =
      update_where (λ x. is_of_attempt attempt.id x && is_retried x.status) (reprepare now) t.steps;
}

abbrev pub continue_cloud :
    (in_cloud : Bool) → Option RotationAttempt → ℕ → Tables → Result String Tables
continue_cloud true (some attempt) now t =
    if all (λ x. is_conclusive x.status) (filter (is_of_attempt attempt.id) t.steps)
    then ok (settle_attempt attempt.charged now attempt t)
    else err "cloud_observation_required"
continue_cloud _ _ now t = ok t

abbrev pub is_unresolved : Option RotationLease → Bool
is_unresolved none = false
is_unresolved (some lease) = is_present lease.unresolved_step_id

abbrev pub incident_of : Option RotationIncident → Result String RotationIncident
incident_of none = err "rotation_not_resumable"
incident_of (some i) = if is_complete i.status then err "rotation_not_resumable" else ok i

-- A manual incident keeps the columns that it has none of.
abbrev pub resumed_revisions :
    HealthTables → RotationContext → RotationIncident → ℕ → Result String (Option HealthRevisions)
resumed_revisions tables c i now = revisions (is_manual i.trigger)
  where
    revisions : Bool → Result String (Option HealthRevisions)
    revisions true = ok i.health_revisions
    revisions false = health_revisions (lock_rotation_health tables c now) >>= λ r. ok (some r)

-- A manual incident keeps its segment; a charged attempt goes on in its own, the new one pending.
abbrev pub current_segment : (is_manual continuing : Bool) → (old new : String) → String
current_segment true continuing old new = old
current_segment false true old new = old
current_segment false false old new = new

abbrev pub pending_segment : (is_manual continuing : Bool) → (new : String) → Option String
pending_segment false true new = some new
pending_segment _ _ new = none

abbrev pub reactivate :
    RotationContext
    → (continuing : Bool) → (policy_revision : ℕ) → Option HealthRevisions
    → Surroundings
    → RotationIncident
    → RotationIncident
reactivate c continuing policy_revision revisions s i = record i {
  status = IncidentStatus.active;
  current_segment_id =
      current_segment (is_manual i.trigger) continuing i.current_segment_id s.segment_id;
  pending_segment_id = pending_segment (is_manual i.trigger) continuing s.segment_id;
  current_attempt_id = if is_cloud i.phase && not continuing then none else i.current_attempt_id;
  paused_by_user_id = none;
  error_code = none;
  recovery_retries = 0;
  recovery_retry_at = none;
  last_recovery_error = none;
  authorization_revision = revision_of c.authorization;
  policy_revision = policy_revision;
  address_version = address_version c.slot;
  health_revisions = revisions;
  next_run_at = s.now;
  updated_at = s.now;
}

abbrev pub add_segment :
    (is_manual : Bool) → (id : String) → (max_attempts : ℕ) → Surroundings → Tables → Tables
add_segment true id max_attempts s t = t
add_segment false id max_attempts s t = record t {
  segments = new_segment s.segment_id id max_attempts s.actor_user_id ∷ t.segments;
}

abbrev pub put_incident : RotationIncident → Tables → Tables
put_incident i t = record t {
  incidents = update_where (λ x. str_eq x.id i.id) (λ x. i) t.incidents;
}

abbrev pub restart :
    RotationContext
    → (policy_revision max_attempts : ℕ) → Option HealthRevisions
    → Surroundings
    → RotationIncident
    → Tables
    → Result String (Tables × RotationIncident)
restart c policy_revision max_attempts revisions s i t = do
  settled ← continue_cloud (is_cloud i.phase) (find_attempt t i.current_attempt_id) s.now t
  ok (store (is_cloud i.phase && is_charged (find_attempt t i.current_attempt_id)) settled)
  where
    store : Bool → Tables → Tables × RotationIncident
    store continuing settled = (
      put_incident (reactivate c continuing policy_revision revisions s i)
          (add_segment (is_manual i.trigger) i.id max_attempts s settled),
      reactivate c continuing policy_revision revisions s i,
    )

unfoldable pub resume_rotation_incident :
    HealthTables
    → RotationContext
    → (id : String) → Surroundings
    → Tables
    → Result String (Tables × RotationIncident)
resume_rotation_incident tables c id s t = do
  i ← incident_of (find (λ x. str_eq x.id id) t.incidents)
  throw_error (rotation_authorization_error c i.trigger)
  policy ← policy_of c.policy
  revisions ← resumed_revisions tables c i s.now
  throw_if (is_unresolved (find (λ l. str_eq l.physical_key c.physical_key) t.leases))
      "cloud_observation_required"
  if is_active i.status
      then ok (t, i)
      else restart c policy.revision policy.max_attempts revisions s i t
