-- ===== src/Schedules/Idle.antt =====
-- A disabled schedule has no deadline.
use master_dns.Common.{
  ℕ, ◌≡◌, ◌==◌, false, Option, none, some, String, List, arith, Bool-cases, inl, inr, refl, is_some,
}
use master_dns.Schedules.Types.{
  Incident, RotationSchedule, IncidentStatus, active, paused, exhausted, complete, is_set,
}
use master_dns.Schedules.Operations.{
  update_rotation_schedule_configuration, is_unchanged, new_schedule, resume_rotation_schedule,
  reconcile_rotation_schedule, observed_incident, handle, handle_incident, unlink, pause_schedule,
  finish_run, link, finish_or_link,
}
use master_dns.Schedules.History.{
  IsAny, All-IsAny, Operation, update, resuming, reconcile, perform, perform_all, perform_all-keeps,
}

-- A deadline stands only in a schedule that is enabled.
abbrev pub IsIdle : RotationSchedule → Type 0
IsIdle s = s.enabled ≡ false → is_some s.next_run_at ≡ false

abbrev pub HasIdle : Option RotationSchedule → Type 0
HasIdle none = Unit {0}
HasIdle (some s) = IsIdle s

finish_or_link-IsIdle :
    (s : RotationSchedule) (i : Incident) (status : IncidentStatus) (at : Option ℕ)
    (incidents : List Incident) (now : ℕ)
    → IsIdle s
    → IsIdle (finish_or_link s i status at incidents now)
unfolding finish_run link
finish_or_link-IsIdle s i complete (some at) incidents now p = λ off. rw off refl
finish_or_link-IsIdle s i complete none incidents now p = ground arith
finish_or_link-IsIdle s i active at incidents now p = ground arith
finish_or_link-IsIdle s i paused at incidents now p = ground arith
finish_or_link-IsIdle s i exhausted at incidents now p = ground arith

handle_incident-IsIdle :
    (s : RotationSchedule) (i : Incident) (incidents : List Incident) (now : ℕ)
    → IsIdle s
    → IsIdle (handle_incident s i incidents now)
unfolding handle_incident pause_schedule unlink
handle_incident-IsIdle s i incidents now p =
    let q = finish_or_link-IsIdle s i i.status i.completed_at incidents now p in ground arith

handle-IsIdle :
    (s : RotationSchedule) (found : Option Incident) (incidents : List Incident) (now : ℕ)
    → IsIdle s
    → IsIdle (handle s found incidents now)
handle-IsIdle s none incidents now p = p
handle-IsIdle s (some i) incidents now p = handle_incident-IsIdle s i incidents now p

perform-HasIdle :
    (slot : String) (row : Option RotationSchedule) (o : Operation)
    → HasIdle row
    → HasIdle (perform slot row o)
unfolding perform update_rotation_schedule_configuration reconcile_rotation_schedule
    resume_rotation_schedule
perform-HasIdle slot none (update incidents input now) p = elim (Bool-cases (0 == input.revision)) [
  | inl e ↦ elim (Bool-cases (is_unchanged (new_schedule slot) input)) [
    | inl f ↦ rw (e, f) p
    | inr f ↦ rw (e, f) (λ off. rw off refl)
  ]
  | inr e ↦ rw e p
]
perform-HasIdle slot (some s) (update incidents input now) p =
    elim (Bool-cases (s.revision == input.revision)) [
      | inl e ↦ elim (Bool-cases (is_unchanged s input)) [
        | inl f ↦ rw (e, f) p
        | inr f ↦ rw (e, f) (λ off. rw off refl)
      ]
      | inr e ↦ rw e p
    ]
perform-HasIdle slot none (resuming incidents revision now) p = tt
perform-HasIdle slot (some s) (resuming incidents revision now) p =
    elim (Bool-cases (s.revision == revision)) [
      | inl e ↦ elim (Bool-cases s.enabled) [
        | inl f ↦ elim (Bool-cases (is_set s.paused_reason)) [
          | inl g ↦ rw (e, f, g) (λ off. cc)
          | inr g ↦ rw (e, f, g) (λ off. cc)
        ]
        | inr f ↦ rw (e, f) (λ off. p f)
      ]
      | inr e ↦ rw e p
    ]
perform-HasIdle slot none (reconcile incidents now) p = tt
perform-HasIdle slot (some s) (reconcile incidents now) p =
    handle-IsIdle s (observed_incident s.active_incident_id slot incidents) incidents now p

-- Whatever sequence of updates, resumptions and reconciliations happens to a slot's schedule, a
-- schedule that is disabled has no deadline.
pub perform_all-HasIdle :
    (slot : String) (row : Option RotationSchedule) (os : List Operation)
    → HasIdle row
    → HasIdle (perform_all slot row os)
perform_all-HasIdle slot row os p =
    perform_all-keeps HasIdle IsAny slot (λ r o q. perform-HasIdle slot r o) row os (All-IsAny os) p
