-- ===== src/Schedules/Pausing.antt =====
-- A schedule that an incident has paused does not run until somebody resumes it.
use master_dns.Common.{
  ℕ, ◌≡◌, ◌==◌, true, false, not, Option, none, some, String, List, All, ◌&&◌, arith, Bool-cases,
  inl, inr, refl, is_some,
}
use master_dns.Schedules.Types.{
  Incident, RotationSchedule, IncidentStatus, active, paused, exhausted, complete, is_complete,
}
use master_dns.Schedules.Operations.{
  update_rotation_schedule_configuration, has_failed, is_handled, reconcile_rotation_schedule,
  observed_incident, handle, handle_incident, unlink, pause_schedule, finish_run, link,
  finish_or_link, is_unchanged,
}
use master_dns.Schedules.History.{
  Operation, update, resuming, reconcile, perform, perform_all, perform_all-keeps,
}

-- The condition of the scheduler's index: the schedule is enabled, not paused, and has a deadline.
abbrev pub CanRun : Option RotationSchedule → Type 0
CanRun none = ⊥
CanRun (some s) =
    (s.enabled ≡ true) × (is_some s.paused_reason ≡ false) × (is_some s.next_run_at ≡ true)

abbrev pub IsPaused : Option RotationSchedule → Type 0
IsPaused none = ⊥
IsPaused (some s) = is_some s.paused_reason ≡ true

abbrev pub IsNoResume : Operation → Type 0
IsNoResume (resuming incidents revision now) = ⊥
IsNoResume o = Unit {0}

finish_or_link-IsPaused :
    (s : RotationSchedule) (i : Incident) (status : IncidentStatus) (at : Option ℕ)
    (incidents : List Incident) (now : ℕ)
    → is_some (finish_or_link s i status at incidents now).paused_reason ≡ is_some s.paused_reason
unfolding finish_run link
finish_or_link-IsPaused s i complete (some at) incidents now = refl
finish_or_link-IsPaused s i complete none incidents now = ground arith
finish_or_link-IsPaused s i active at incidents now = ground arith
finish_or_link-IsPaused s i paused at incidents now = ground arith
finish_or_link-IsPaused s i exhausted at incidents now = ground arith

handle_incident-IsPaused :
    (s : RotationSchedule) (i : Incident) (incidents : List Incident) (now : ℕ)
    → is_some s.paused_reason ≡ true
    → is_some (handle_incident s i incidents now).paused_reason ≡ true
unfolding handle_incident pause_schedule unlink
handle_incident-IsPaused s i incidents now p =
    ground (arith, finish_or_link-IsPaused s i i.status i.completed_at incidents now)

handle-IsPaused :
    (s : RotationSchedule) (found : Option Incident) (incidents : List Incident) (now : ℕ)
    → is_some s.paused_reason ≡ true
    → is_some (handle s found incidents now).paused_reason ≡ true
handle-IsPaused s none incidents now p = p
handle-IsPaused s (some i) incidents now p = handle_incident-IsPaused s i incidents now p

perform-IsPaused :
    (slot : String) (row : Option RotationSchedule) (o : Operation)
    → IsNoResume o
    → IsPaused row
    → IsPaused (perform slot row o)
unfolding perform update_rotation_schedule_configuration reconcile_rotation_schedule
perform-IsPaused slot (some s) (update incidents input now) q p =
    elim (Bool-cases (s.revision == input.revision)) [
      | inl e ↦ elim (Bool-cases (is_unchanged s input)) [
        | inl f ↦ rw (e, f) p
        | inr f ↦ rw (e, f) p
      ]
      | inr e ↦ rw e p
    ]
perform-IsPaused slot (some s) (reconcile incidents now) q p =
    handle-IsPaused s (observed_incident s.active_incident_id slot incidents) incidents now p
perform-IsPaused slot (some s) (resuming incidents revision now) q p = absurd q
perform-IsPaused slot none o q p = absurd p

CanRun-IsPaused : (row : Option RotationSchedule) → IsPaused row → ¬ CanRun row
CanRun-IsPaused none p can = p
CanRun-IsPaused (some s) p (enabled, unpaused, due) = ground arith

pausing_lem :
    (s : RotationSchedule) (i : Incident) (incidents : List Incident) (now : ℕ)
    → has_failed i ≡ true
    → is_handled s i ≡ false
    → (is_complete i.status && not (is_some s.active_incident_id)) ≡ false
    → is_some (handle_incident s i incidents now).paused_reason ≡ true
unfolding handle_incident pause_schedule
pausing_lem s i incidents now failed fresh linked = ground arith

-- When a reconciliation observes an incident that was paused, exhausted or terminated and that
-- the schedule has not handled yet, the schedule cannot run, and this lasts through every
-- sequence of updates and reconciliations until the schedule is resumed. (A completed incident
-- counts only while it is linked to the schedule.)
pub failure-pauses :
    (slot : String) (s : RotationSchedule) (i : Incident) (incidents : List Incident) (now : ℕ)
    (os : List Operation)
    → observed_incident s.active_incident_id slot incidents ≡ some i
    → has_failed i ≡ true
    → is_handled s i ≡ false
    → (is_complete i.status && not (is_some s.active_incident_id)) ≡ false
    → All IsNoResume os
    → ¬ CanRun (perform_all slot (reconcile_rotation_schedule incidents slot now (some s)) os)
unfolding reconcile_rotation_schedule
failure-pauses slot s i incidents now os observed failed fresh linked qs can =
    CanRun-IsPaused (perform_all slot (reconcile_rotation_schedule incidents slot now (some s)) os)
      (perform_all-keeps IsPaused IsNoResume slot (perform-IsPaused slot)
        (reconcile_rotation_schedule incidents slot now (some s)) os qs
        (rw observed (pausing_lem s i incidents now failed fresh linked)))
      can
