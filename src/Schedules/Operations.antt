-- ===== src/Schedules/Operations.antt =====
-- updateRotationScheduleConfiguration, resumeRotationSchedule and reconcileRotationSchedule, on a
-- slot's row and the table of incidents. `now` is `databaseNow`.
use Prim.Native.String.{◌++◌ as concat}
use master_dns.Common.{
  ℕ, ◌+◌, ◌==◌, Bool, true, false, not, ◌&&◌, ◌||◌, Option, none, some, String, List, is_some, find,
  get_or, if◌then◌else◌, Result, err, ok, ◌>>◌, throw_if,
}
use master_dns.Common.Text.{str_eq}
use master_dns.Schedules.Types.{
  Incident, IncidentStatus, active, paused, exhausted, complete, RotationSchedule,
  rotation_schedule_deadline, is_complete, latest_schedule_completion, incident_observation_time,
  lock_schedule_incident, is_set,
}

pub data ScheduleError : Type 0 where
  revision_conflict not_found disabled not_paused : ScheduleError

pub record RotationScheduleUpdateInput : Type 0 where
  pub revision : ℕ
  pub enabled : Bool
  pub interval_minutes : ℕ

-- What `before?.column ?? default` gives where there is no row, and the columns of a new row.
abbrev pub new_schedule : String → RotationSchedule
new_schedule slot = record {
  slot_id = slot;
  enabled = false;
  interval_minutes = 1440;
  revision = 0;
  next_run_at = none;
  active_incident_id = none;
  last_started_at = none;
  last_completed_at = none;
  last_handled_incident_id = none;
  last_handled_incident_updated_at = none;
  paused_reason = none;
  updated_at = 0;
}

abbrev pub same_bool : Bool → Bool → Bool
same_bool true b = b
same_bool false b = not b

-- `first ?? second`
abbrev pub or_else {ℓ} : {A : Type ℓ} → Option A → Option A → Option A
or_else none second = second
or_else (some a) second = some a

abbrev pub id_of : Option Incident → Option String
id_of none = none
id_of (some i) = some i.id

abbrev pub completed_at_of : Option Incident → Option ℕ
completed_at_of none = none
completed_at_of (some i) = i.completed_at

-- The incident ended well: an unacknowledged termination stays linked.
abbrev pub has_succeeded : Option Incident → Bool
has_succeeded none = false
has_succeeded (some i) = is_complete i.status && not (is_some i.terminated_at)

abbrev pub has_ended : Option Incident → Bool
has_ended none = false
has_ended (some i) = is_complete i.status

-- The observation of the latest completion, or the stored one.
abbrev pub observed_time : Option Incident → Option ℕ → List Incident → Option ℕ
observed_time none stored incidents = stored
observed_time (some latest) stored incidents = incident_observation_time latest.id incidents

abbrev pub configure :
    RotationSchedule
    → RotationScheduleUpdateInput
    → (linked : Option String) → (latest : Option Incident) → List Incident
    → ℕ
    → RotationSchedule
configure s input linked latest incidents now = record {
  slot_id = s.slot_id;
  enabled = input.enabled;
  interval_minutes = input.interval_minutes;
  revision = s.revision + 1;
  next_run_at =
      if input.enabled then some (rotation_schedule_deadline now input.interval_minutes) else none;
  active_incident_id = linked;
  last_started_at = s.last_started_at;
  last_completed_at = or_else (completed_at_of latest) s.last_completed_at;
  last_handled_incident_id =
      if is_some linked
      then s.last_handled_incident_id
      else or_else (id_of latest) s.last_handled_incident_id;
  last_handled_incident_updated_at =
      if is_some linked
      then s.last_handled_incident_updated_at
      else observed_time latest s.last_handled_incident_updated_at incidents;
  paused_reason = s.paused_reason;
  updated_at = now;
}

abbrev pub is_unchanged : RotationSchedule → RotationScheduleUpdateInput → Bool
is_unchanged s input =
    same_bool s.enabled input.enabled && (s.interval_minutes == input.interval_minutes)

unfoldable pub update_rotation_schedule_configuration :
    List Incident
    → String
    → RotationScheduleUpdateInput
    → ℕ
    → Option RotationSchedule
    → Result ScheduleError (Option RotationSchedule)
update_rotation_schedule_configuration incidents slot input now before =
    let s = get_or before (new_schedule slot) in
    let linked =
      if has_succeeded (lock_schedule_incident s.active_incident_id incidents)
      then none
      else s.active_incident_id in
    throw_if (not (s.revision == input.revision)) revision_conflict
    >> ok (
        if is_unchanged s input
        then before
        else some
            (configure s input linked (latest_schedule_completion slot incidents) incidents now))

abbrev pub resumed :
    RotationSchedule
    → (linked : Option String) → (latest : Option Incident) → List Incident
    → ℕ
    → RotationSchedule
resumed s linked latest incidents now = record {
  slot_id = s.slot_id;
  enabled = s.enabled;
  interval_minutes = s.interval_minutes;
  revision = s.revision + 1;
  next_run_at = some (rotation_schedule_deadline now s.interval_minutes);
  active_incident_id = linked;
  last_started_at = s.last_started_at;
  last_completed_at = or_else (completed_at_of latest) s.last_completed_at;
  last_handled_incident_id = or_else (or_else linked (id_of latest)) s.last_handled_incident_id;
  last_handled_incident_updated_at = observe (or_else linked (id_of latest));
  paused_reason = none;
  updated_at = now;
}
  where
    observe : Option String → Option ℕ
    observe none = s.last_handled_incident_updated_at
    observe (some id) = incident_observation_time id incidents

abbrev pub resume :
    List Incident → String → ℕ → RotationSchedule → Result ScheduleError (Option RotationSchedule)
resume incidents slot now s =
    let linked =
      if has_ended (lock_schedule_incident s.active_incident_id incidents)
      then none
      else s.active_incident_id in
    ok (some (resumed s linked (latest_schedule_completion slot incidents) incidents now))

unfoldable pub resume_rotation_schedule :
    List Incident
    → String
    → (revision now : ℕ) → Option RotationSchedule
    → Result ScheduleError (Option RotationSchedule)
resume_rotation_schedule incidents slot revision now none = err not_found
resume_rotation_schedule incidents slot revision now (some s) =
    throw_if (not (s.revision == revision)) revision_conflict
    >> throw_if (not s.enabled) disabled
    >> throw_if (not (is_set s.paused_reason)) not_paused
    >> resume incidents slot now s

abbrev pub has_id : Option String → String → Bool
has_id none id = false
has_id (some stored) id = str_eq stored id

-- The incident that a reconciliation looks at: the linked one, or else an open one of the slot, or
-- else the slot's latest completion.
unfoldable pub observed_incident : Option String → String → List Incident → Option Incident
observed_incident (some id) slot incidents =
    find (λ i. str_eq i.slot_id slot && str_eq i.id id) incidents
observed_incident none slot incidents =
    or_else (find (λ i. str_eq i.slot_id slot && not (is_complete i.status)) incidents)
      (latest_schedule_completion slot incidents)

abbrev pub is_time : Option ℕ → ℕ → Bool
is_time none time = false
is_time (some stored) time = stored == time

abbrev pub is_handled : RotationSchedule → Incident → Bool
is_handled s i =
    has_id s.last_handled_incident_id i.id
    && is_time s.last_handled_incident_updated_at i.updated_at

abbrev pub status_name : IncidentStatus → String
status_name active = "active"
status_name paused = "paused"
status_name exhausted = "exhausted"
status_name complete = "complete"

abbrev pub default_reason : Incident → String
default_reason i =
    if is_some i.terminated_at
    then "manual_terminated"
    else concat "rotation_" (status_name i.status)

abbrev pub has_failed : Incident → Bool
has_failed i = is_some i.terminated_at || stopped i.status
  where
    stopped : IncidentStatus → Bool
    stopped paused = true
    stopped exhausted = true
    stopped _ = false

unfoldable pub unlink : RotationSchedule → ℕ → RotationSchedule
unlink s now = record s { active_incident_id = none; updated_at = now }

unfoldable pub pause_schedule : RotationSchedule → Incident → List Incident → ℕ → RotationSchedule
pause_schedule s i incidents now = record s {
  active_incident_id = if is_complete i.status then none else some i.id;
  last_handled_incident_id = some i.id;
  last_handled_incident_updated_at = incident_observation_time i.id incidents;
  paused_reason = some (get_or (or_else s.paused_reason i.error_code) (default_reason i));
  next_run_at = none;
  updated_at = now;
}

unfoldable pub finish_run :
    RotationSchedule → Incident → (completed_at : ℕ) → List Incident → ℕ → RotationSchedule
finish_run s i completed_at incidents now = record s {
  active_incident_id = none;
  last_completed_at = some completed_at;
  last_handled_incident_id = some i.id;
  last_handled_incident_updated_at = incident_observation_time i.id incidents;
  next_run_at =
      if s.enabled && not (is_set s.paused_reason)
      then some (rotation_schedule_deadline completed_at s.interval_minutes)
      else none;
  updated_at = now;
}

unfoldable pub link : RotationSchedule → Incident → ℕ → RotationSchedule
link s i now = record s {
  active_incident_id = some i.id;
  last_started_at = some i.created_at;
  updated_at = now;
}

abbrev pub acknowledge : RotationSchedule → Incident → ℕ → RotationSchedule
acknowledge s i now =
    if not (is_complete i.status) || not (is_some s.active_incident_id) then s else unlink s now

abbrev pub link_open : RotationSchedule → Incident → ℕ → RotationSchedule
link_open s i now = if is_some s.active_incident_id then s else link s i now

abbrev pub finish_or_link :
    RotationSchedule → Incident → IncidentStatus → Option ℕ → List Incident → ℕ → RotationSchedule
finish_or_link s i complete (some completed_at) incidents now =
    finish_run s i completed_at incidents now
finish_or_link s i status completed_at incidents now = link_open s i now

unfoldable pub handle_incident : RotationSchedule → Incident → List Incident → ℕ → RotationSchedule
handle_incident s i incidents now =
    if is_complete i.status
      && not (is_some s.active_incident_id)
      && has_id s.last_handled_incident_id i.id
    then s
    else if has_failed i
    then (if is_handled s i then acknowledge s i now else pause_schedule s i incidents now)
    else finish_or_link s i i.status i.completed_at incidents now

abbrev pub handle : RotationSchedule → Option Incident → List Incident → ℕ → RotationSchedule
handle s none incidents now = s
handle s (some i) incidents now = handle_incident s i incidents now

unfoldable pub reconcile_rotation_schedule :
    List Incident → String → ℕ → Option RotationSchedule → Option RotationSchedule
reconcile_rotation_schedule incidents slot now none = none
reconcile_rotation_schedule incidents slot now (some s) =
    some (handle s (observed_incident s.active_incident_id slot incidents) incidents now)
