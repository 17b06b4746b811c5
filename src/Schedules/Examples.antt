-- ===== src/Schedules/Examples.antt =====
-- The theorems on schedules at concrete rows, and tests.
use master_dns.Common.{◌≡◌, refl, none, some, List, [], ◌∷◌, true, false, err, ok, ◌+◌, ◌*◌}
use master_dns.Schedules.Types.{
  IncidentStatus, Incident, RotationSchedule, paused, find_incident, latest_schedule_completion,
}
use master_dns.Schedules.Operations.{
  RotationScheduleUpdateInput, revision_conflict, update_rotation_schedule_configuration,
  resume_rotation_schedule, reconcile_rotation_schedule, observed_incident, new_schedule,
  handle_incident, pause_schedule, link, resumed, configure,
}
use master_dns.Strategy.Order.{sort}
use master_dns.Schedules.History.{update, resuming, reconcile, perform_all}
use master_dns.Schedules.Revisions.{update-fences, by_resumption, revision_of}
use master_dns.Schedules.Pausing.{CanRun, failure-pauses}
use master_dns.Schedules.Resuming.{IsWaiting, IsReady, resume-lasts}
use master_dns.Incidents.Types.{RotationContext, Tables}
use master_dns.Incidents.Opening.{create_scheduled_rotation_incident}
use master_dns.Incidents.Examples.{context, at, tables, no_health, event_text, family_four}
use master_dns.Schedules.Idle.{HasIdle, perform_all-HasIdle}

abbrev stuck : Incident
stuck = record {
  id = "incident-1";
  slot_id = "slot";
  status = paused;
  error_code = some "attempts_exhausted";
  created_at = 5000;
  updated_at = 9000;
  completed_at = none;
  terminated_at = none;
}

abbrev table : List Incident
table = stuck ∷ []

abbrev daily : RotationScheduleUpdateInput
daily = record { revision = 0; enabled = true; interval_minutes = 1440 }

abbrev daily_again : RotationScheduleUpdateInput
daily_again = record { revision = 1; enabled = false; interval_minutes = 60 }

abbrev first_row : RotationSchedule
first_row = configure (new_schedule "slot") daily none none [] 1000

abbrev linked_row : RotationSchedule
linked_row = link first_row stuck 6000

abbrev paused_row : RotationSchedule
paused_row = pause_schedule linked_row stuck table 9500

update_writes_first_row :
    update_rotation_schedule_configuration [] "slot" daily 1000 none ≡ ok (some first_row)
unfolding update_rotation_schedule_configuration latest_schedule_completion sort
update_writes_first_row = refl

reconcile_pauses : reconcile_rotation_schedule table "slot" 9500 (some linked_row) ≡ some paused_row
unfolding reconcile_rotation_schedule observed_incident handle_incident link pause_schedule
reconcile_pauses = refl

abbrev resumed_row : RotationSchedule
resumed_row = resumed paused_row (some "incident-1") none table 9900

resumes : resume_rotation_schedule table "slot" 1 9900 (some paused_row) ≡ ok (some resumed_row)
unfolding resume_rotation_schedule find_incident pause_schedule link latest_schedule_completion sort
resumes = refl

-- The second request comes from a form that was opened before the resumption.
update-fences_example :
    (revision_of (some paused_row) ≡ 1)
    × (update_rotation_schedule_configuration table "slot" daily_again 9960
          (perform_all "slot" (some resumed_row) (reconcile table 9950 ∷ []))
        ≡ err revision_conflict)
    × (resume_rotation_schedule table "slot" 1 9960
          (perform_all "slot" (some resumed_row) (reconcile table 9950 ∷ []))
        ≡ err revision_conflict)
update-fences_example =
    update-fences "slot" 1 (some paused_row) (some resumed_row) (reconcile table 9950 ∷ []) table
      daily_again 9960 (by_resumption table 9900 (some paused_row) (some resumed_row) resumes) refl

failure-pauses_example : ¬ CanRun (
    perform_all "slot"
      (reconcile_rotation_schedule table "slot" 9500 (some linked_row))
      (update table daily 9700 ∷ reconcile table 9800 ∷ []))
unfolding observed_incident link
failure-pauses_example =
    failure-pauses "slot" linked_row stuck table 9500
      (update table daily 9700 ∷ reconcile table 9800 ∷ []) refl refl refl refl (tt, (tt, tt))

abbrev done : Incident
done = record stuck {
  status = IncidentStatus.complete;
  updated_at = 20000;
  completed_at = some 20000;
}

abbrev slot_context : RotationContext
slot_context = record context { slot = record (context.slot) { id = "slot" } }

abbrev stored : Tables
stored = record tables { schedules = resumed_row ∷ [] }

resume-lasts_example :
    ((r : RotationSchedule) × (some resumed_row ≡ some r)
      × IsWaiting "incident-1" (9900 + 1440 * 60000) r)
    × (reconcile_rotation_schedule table "slot" 20500 (some resumed_row) ≡ some resumed_row)
    × (create_scheduled_rotation_incident family_four event_text no_health slot_context
          (at 20500 "i1" "g1")
          stored
        ≡ err "rotation_schedule_active")
    × IsReady
        (20000 + 1440 * 60000)
        (reconcile_rotation_schedule (done ∷ []) "slot" 20500 (some resumed_row))
unfolding find_incident link pause_schedule
resume-lasts_example =
    resume-lasts family_four event_text no_health slot_context (at 20500 "i1" "g1") stored table
      (done ∷ []) "slot" "incident-1" 1 9900 20500 20000 paused_row stuck done (some resumed_row)
      resumes refl refl refl refl refl refl refl refl refl refl refl

perform_all-HasIdle_example : HasIdle (
    perform_all "slot" none
      (update [] daily 1000 ∷ reconcile table 9500 ∷ resuming table 1 9900 ∷ []))
perform_all-HasIdle_example =
    perform_all-HasIdle "slot" none
      (update [] daily 1000 ∷ reconcile table 9500 ∷ resuming table 1 9900 ∷ []) tt
