-- ===== src/Incidents/Opening.antt =====
-- `createRotationIncident`, `createScheduledRotationIncident` and `createManualRotationIncident`.
-- The audit log is left out.
use master_dns.Common.{
  ℕ, Bool, true, false, not, ◌&&◌, Option, none, some, ◌∷◌, String, find, update_where, ltb, Result,
  ok, err, ◌>>=◌, ◌>>◌, throw_if, if◌then◌else◌,
}
use master_dns.Common.Text.{str_eq}
use master_dns.Cloud.Types.{is_present}
use master_dns.Schedules.Types.{IncidentStatus, is_complete, RotationSchedule}
use master_dns.Incidents.Types.{
  CloudRotationTrigger, health, manual, scheduled, RotationPolicy, RotationContext, address_version,
  HealthRevisions, IncidentPhase, RotationIncident, BudgetSegment, Tables, Surroundings,
  Authorization,
}
use master_dns.Incidents.Policy.{
  is_health, rotation_authorization_error, has_other_candidate,
  scheduled_rotation_prerequisite_error, manual_rotation_capability_error,
}
use master_dns.Incidents.Evidence.{HealthTables, lock_rotation_health, health_revisions}

abbrev pub same_trigger : CloudRotationTrigger → CloudRotationTrigger → Bool
same_trigger health health = true
same_trigger manual manual = true
same_trigger scheduled scheduled = true
same_trigger _ _ = false

-- `if (error) throw new Error(error)`
abbrev pub throw_error : Option String → Result String (Unit {0})
throw_error none = ok tt
throw_error (some error) = err error

abbrev pub is_open_in : String → RotationIncident → Bool
is_open_in slot i = str_eq i.slot_id slot && not (is_complete i.status)

abbrev pub is_from : (slot source : String) → RotationIncident → Bool
is_from slot source i = str_eq i.slot_id slot && str_eq i.source_event_id source

-- The incident that a request is about already: the slot's open one, or that of its event.
abbrev pub or_found : Option RotationIncident → Option RotationIncident → Option RotationIncident
or_found (some existing) source = some existing
or_found none source = source

abbrev pub find_present : (slot source : String) → Tables → Option RotationIncident
find_present slot source t =
    or_found (find (is_open_in slot) t.incidents) (find (is_from slot source) t.incidents)

abbrev pub revision_of : Option Authorization → ℕ
revision_of none = 0
revision_of (some a) = a.revision

abbrev pub new_incident :
    RotationContext
    → CloudRotationTrigger
    → (source : String) → Surroundings
    → (policy_revision : ℕ) → Option HealthRevisions
    → RotationIncident
new_incident c trigger source s policy_revision revisions = record {
  id = s.incident_id;
  owner_user_id = c.account.owner_user_id;
  slot_id = c.slot.id;
  family = c.slot.family;
  physical_key = c.physical_key;
  source_event_id = source;
  trigger = trigger;
  release_old_address = true;
  status = IncidentStatus.active;
  phase = IncidentPhase.cloud;
  current_segment_id = s.segment_id;
  current_attempt_id = none;
  pending_segment_id = none;
  authorization_revision = revision_of c.authorization;
  policy_revision = policy_revision;
  address_version = address_version c.slot;
  health_revisions = revisions;
  next_attempt_at = s.now;
  next_run_at = s.now;
  error_code = none;
  recovery_retries = c.slot.reset_recovery_retries;
  recovery_retry_at = none;
  last_recovery_error = none;
  paused_by_user_id = none;
  created_at = s.started;
  updated_at = s.started;
  completed_at = none;
  terminated_at = none;
}

abbrev pub new_segment :
    (id incident_id : String) (max_attempts : ℕ) → Option String → BudgetSegment
new_segment id incident_id max_attempts actor = record {
  id = id;
  incident_id = incident_id;
  max_attempts = max_attempts;
  attempts_used = 0;
  exhausted = false;
  actor_user_id = actor;
}

abbrev pub insert_incident : RotationIncident → (max_attempts : ℕ) → Surroundings → Tables → Tables
insert_incident i max_attempts s t = record t {
  incidents = i ∷ t.incidents;
  segments = new_segment s.segment_id i.id max_attempts s.actor_user_id ∷ t.segments;
}

abbrev pub policy_of : Option RotationPolicy → Result String RotationPolicy
policy_of none = err "rotation_policy_missing"
policy_of (some policy) = ok policy

-- The tables after it, the incident, and the time that it was opened.
abbrev pub Opened : Type 0
Opened = Tables × RotationIncident × ℕ

abbrev pub insert_opened : RotationIncident → (max_attempts : ℕ) → Surroundings → Tables → Opened
insert_opened i max_attempts s t = (insert_incident i max_attempts s t, i, s.now)

abbrev pub reuse : CloudRotationTrigger → Tables → RotationIncident → Result String Opened
reuse trigger t i =
    if same_trigger i.trigger trigger
    then ok (t, i, i.created_at)
    else err "rotation_active_conflict"

abbrev pub unless_present :
    CloudRotationTrigger
    → Tables
    → Option RotationIncident
    → Result String Opened
    → Result String Opened
unless_present trigger t none next = next
unless_present trigger t (some i) next = reuse trigger t i

abbrev pub open_cross_cloud :
    HealthTables
    → RotationContext
    → CloudRotationTrigger
    → String
    → Surroundings
    → Tables
    → Result String Opened
open_cross_cloud tables c trigger source s t = do
  throw_error (rotation_authorization_error c trigger)
  policy ← policy_of c.policy
  throw_if (is_health trigger && not (lock_rotation_health tables c s.now).failure)
      "confirmed_failure_required"
  revisions ← health_revisions (lock_rotation_health tables c s.now)
  ok (
      insert_opened (new_incident c trigger source s policy.revision (some revisions))
        policy.max_attempts s t)

unfoldable pub create_cross_cloud_rotation_incident :
    HealthTables
    → RotationContext
    → CloudRotationTrigger
    → String
    → Surroundings
    → Tables
    → Result String Opened
create_cross_cloud_rotation_incident tables c trigger source s t =
    unless_present trigger t (find_present c.slot.id source t)
      (open_cross_cloud tables c trigger source s t)

-- With the tables, and the time that the incident was opened.
abbrev pub create_rotation_incident :
    HealthTables → RotationContext → String → Surroundings → Tables → Result String Opened
create_rotation_incident tables c source s t =
    create_cross_cloud_rotation_incident tables c health source s t

abbrev pub is_due : Option ℕ → ℕ → Bool
is_due none now = false
is_due (some at) now = not (ltb now at)

abbrev pub time_of : Option ℕ → ℕ
time_of none = 0
time_of (some at) = at

abbrev pub start_schedule : (id : String) (at : ℕ) → RotationSchedule → RotationSchedule
start_schedule id at schedule = record schedule {
  active_incident_id = some id;
  next_run_at = none;
  last_started_at = some at;
  updated_at = at;
}

abbrev pub schedule_of : Option RotationSchedule → Result String RotationSchedule
schedule_of none = err "rotation_schedule_not_found"
schedule_of (some schedule) = ok schedule

-- The row that is inserted for a slot without a policy.
abbrev pub disabled_policy : String → (started : ℕ) → RotationPolicy
disabled_policy slot started = record {
  slot_id = slot;
  enabled = false;
  max_attempts = 3;
  revision = 1;
  linode_ipv4_strategy = "additional_ipv4";
  linode_allow_temporary_instance = false;
  updated_at = started;
}

abbrev pub ensure_policy :
    String → (started : ℕ) → Option RotationPolicy → Tables → Tables × RotationPolicy
ensure_policy slot started (some policy) t = (t, policy)
ensure_policy slot started none t = (
  record t { policies = disabled_policy slot started ∷ t.policies },
  disabled_policy slot started,
)

-- `isIP` of the platform.
module _ (is_ip : String → ℕ) where
  abbrev pub open_manual : RotationContext → String → Surroundings → Tables → Result String Opened
  open_manual c source s t = do
    throw_if (has_other_candidate c.slot) "rotation_candidate_exists"
    throw_error (rotation_authorization_error c manual)
    throw_error (manual_rotation_capability_error is_ip c)
    ok (
        insert_opened
          (new_incident c manual source s (ensure_policy c.slot.id s.started c.policy t).1.revision
            none)
          1 s (ensure_policy c.slot.id s.started c.policy t).0)

  unfoldable pub create_manual_rotation_incident :
      RotationContext → String → Surroundings → Tables → Result String Opened
  create_manual_rotation_incident c source s t =
      unless_present manual t (find_present c.slot.id source t) (open_manual c source s t)

-- The text of the event of a schedule's run.
module _ (is_ip : String → ℕ) (scheduled_event : (revision next_run_at : ℕ) → String) where
  unfoldable pub create_scheduled_rotation_incident :
      HealthTables → RotationContext → Surroundings → Tables → Result String Opened
  create_scheduled_rotation_incident tables c s t = do
    schedule ← schedule_of (find (λ r. str_eq r.slot_id c.slot.id) t.schedules)
    throw_if (not schedule.enabled) "rotation_schedule_disabled"
    throw_if (is_present schedule.paused_reason) "rotation_schedule_paused"
    throw_if (is_present schedule.active_incident_id) "rotation_schedule_active"
    throw_if (not (is_due schedule.next_run_at s.now)) "rotation_schedule_not_due"
    throw_error (scheduled_rotation_prerequisite_error is_ip c)
    opened ←
        create_cross_cloud_rotation_incident tables c scheduled
          (scheduled_event schedule.revision (time_of schedule.next_run_at)) s t
    ok (
      record (opened.0) {
        schedules =
            update_where (λ r. str_eq r.slot_id c.slot.id) (start_schedule opened.1.id opened.2)
              opened.0.schedules;
      },
      opened.1,
      opened.2,
    )
