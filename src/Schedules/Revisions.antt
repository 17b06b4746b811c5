-- ===== src/Schedules/Revisions.antt =====
-- Optimistic locking: a revision can be used for one change.
use master_dns.Common.{
  ℕ, ◌+◌, ◌≡◌, ◌≤◌, ◌<◌, ◌==◌, Bool, true, false, not, Option, none, some, String, List, err, ok,
  get_or, ◌>>◌, throw_if, if◌then◌else◌, arith, inl, inr, refl, sym, ap, ◌∙◌, first_returns,
  ok-injective, ◌⊎◌,
}
use master_dns.Schedules.Types.{
  Incident, RotationSchedule, IncidentStatus, active, paused, exhausted, complete, is_set,
}
use master_dns.Schedules.Operations.{
  RotationScheduleUpdateInput, update_rotation_schedule_configuration, revision_conflict, disabled,
  not_paused, resume_rotation_schedule, reconcile_rotation_schedule, new_schedule,
  observed_incident, handle, handle_incident, unlink, pause_schedule, finish_run, link,
  is_unchanged, finish_or_link,
}
use master_dns.Schedules.History.{
  IsAny, All-IsAny, Operation, update, resuming, reconcile, perform, perform_all, perform_all-keeps,
}

-- `before?.revision ?? 0`
abbrev pub revision_of : Option RotationSchedule → ℕ
revision_of none = 0
revision_of (some s) = s.revision

finish_or_link-revision :
    (s : RotationSchedule) (i : Incident) (status : IncidentStatus) (at : Option ℕ)
    (incidents : List Incident) (now : ℕ)
    → (finish_or_link s i status at incidents now).revision ≡ s.revision
unfolding finish_run link
finish_or_link-revision s i complete (some at) incidents now = refl
finish_or_link-revision s i complete none incidents now = ground arith
finish_or_link-revision s i active at incidents now = ground arith
finish_or_link-revision s i paused at incidents now = ground arith
finish_or_link-revision s i exhausted at incidents now = ground arith

handle_incident-revision :
    (s : RotationSchedule) (i : Incident) (incidents : List Incident) (now : ℕ)
    → (handle_incident s i incidents now).revision ≡ s.revision
unfolding handle_incident pause_schedule unlink
handle_incident-revision s i incidents now =
    ground (arith, finish_or_link-revision s i i.status i.completed_at incidents now)

handle-revision :
    (s : RotationSchedule) (found : Option Incident) (incidents : List Incident) (now : ℕ)
    → (handle s found incidents now).revision ≡ s.revision
handle-revision s none incidents now = refl
handle-revision s (some i) incidents now = handle_incident-revision s i incidents now

update-returns :
    (stored given : ℕ) (same : Bool) (before written row' : Option RotationSchedule)
    → (throw_if (not (stored == given)) revision_conflict >> ok (if same then before else written))
      ≡ ok row'
    → (stored ≡ given) × ((same ≡ true × row' ≡ before) ⊎ (same ≡ false × row' ≡ written))
update-returns stored given same before written row' e =
    let (u, p, q) =
      first_returns (throw_if (not (stored == given)) revision_conflict)
        (λ _. ok (if same then before else written)) e in
    (ground arith, chosen same (ok-injective _ _ q))
  where
    chosen :
        (b : Bool)
        → (if b then before else written) ≡ row'
        → (b ≡ true × row' ≡ before) ⊎ (b ≡ false × row' ≡ written)
    chosen true e = inl (refl, sym e)
    chosen false e = inr (refl, sym e)

update-writes :
    (incidents : List Incident) (slot : String) (input : RotationScheduleUpdateInput) (now : ℕ)
    (row row' : Option RotationSchedule)
    → update_rotation_schedule_configuration incidents slot input now row ≡ ok row'
    → (revision_of row ≡ input.revision)
      × ((is_unchanged (get_or row (new_schedule slot)) input ≡ true × row' ≡ row)
          ⊎ (is_unchanged (get_or row (new_schedule slot)) input ≡ false
              × revision_of row' ≡ input.revision + 1))
unfolding update_rotation_schedule_configuration
update-writes incidents slot input now none row' e =
    ground (
      arith,
      update-returns 0 input.revision (is_unchanged (new_schedule slot) input) none _ row' e,
    )
update-writes incidents slot input now (some s) row' e =
    ground
      (arith, update-returns s.revision input.revision (is_unchanged s input) (some s) _ row' e)

perform-revision :
    (slot : String) (row : Option RotationSchedule) (o : Operation)
    → revision_of row ≤ revision_of (perform slot row o)
unfolding perform update_rotation_schedule_configuration resume_rotation_schedule
    reconcile_rotation_schedule
perform-revision slot none (update incidents input now) = ground arith
perform-revision slot (some s) (update incidents input now) = ground arith
perform-revision slot none (resuming incidents revision now) = ground arith
perform-revision slot (some s) (resuming incidents revision now) = ground arith
perform-revision slot none (reconcile incidents now) = ground arith
perform-revision slot (some s) (reconcile incidents now) =
    rw (handle-revision s (observed_incident s.active_incident_id slot incidents) incidents now)
      (omega arith)

perform_all-revision :
    (slot : String) (row : Option RotationSchedule) (os : List Operation) (n : ℕ)
    → n ≤ revision_of row
    → n ≤ revision_of (perform_all slot row os)
perform_all-revision slot row os n h =
    perform_all-keeps (λ r. n ≤ revision_of r) IsAny slot
      (λ r o q p. omega (arith, perform-revision slot r o)) row os (All-IsAny os) h

update_behind :
    (incidents : List Incident) (slot : String) (input : RotationScheduleUpdateInput) (now : ℕ)
    (row : Option RotationSchedule)
    → input.revision < revision_of row
    → update_rotation_schedule_configuration incidents slot input now row ≡ err revision_conflict
unfolding update_rotation_schedule_configuration
update_behind incidents slot input now none h = ground arith
update_behind incidents slot input now (some s) h = ground arith

resume_behind :
    (incidents : List Incident) (slot : String) (revision now : ℕ) (row : Option RotationSchedule)
    → revision < revision_of row
    → resume_rotation_schedule incidents slot revision now row ≡ err revision_conflict
unfolding resume_rotation_schedule
resume_behind incidents slot revision now none h = ground arith
resume_behind incidents slot revision now (some s) h = ground arith

resume-returns :
    (stored given : ℕ) (enabled paused_ : Bool) (written row' : Option RotationSchedule)
    → (throw_if (not (stored == given)) revision_conflict
        >> throw_if (not enabled) disabled
        >> throw_if (not paused_) not_paused
        >> ok written)
      ≡ ok row'
    → (stored ≡ given) × (row' ≡ written)
resume-returns stored given enabled paused_ written row' e =
    let checked =
      first_returns
        (throw_if (not (stored == given)) revision_conflict
          >> throw_if (not enabled) disabled
          >> throw_if (not paused_) not_paused)
        (λ _. ok written) e in
    (ground arith, sym (ok-injective _ _ checked.2))

resume-revision :
    (incidents : List Incident) (slot : String) (revision now : ℕ)
    (row row' : Option RotationSchedule)
    → resume_rotation_schedule incidents slot revision now row ≡ ok row'
    → (revision_of row ≡ revision) × (revision_of row' ≡ revision + 1)
unfolding resume_rotation_schedule
resume-revision incidents slot revision now none row' e = cc
resume-revision incidents slot revision now (some s) row' e =
    let (at, written) =
      resume-returns s.revision revision s.enabled (is_set s.paused_reason) _ row' e in
    (at, ap revision_of written ∙ ap (λ n. n + 1) at)

-- A request of a revision that changes the slot's schedule: an update of the configuration, or a
-- resumption.
pub data Changes (slot : String) (revision : ℕ)
    : Option RotationSchedule → Option RotationSchedule → Type 0 where
  by_update :
      (incidents : List Incident) (input : RotationScheduleUpdateInput) (now : ℕ)
      (row row' : Option RotationSchedule)
      → input.revision ≡ revision
      → is_unchanged (get_or row (new_schedule slot)) input ≡ false
      → update_rotation_schedule_configuration incidents slot input now row ≡ ok row'
      → Changes slot revision row row'
  by_resumption :
      (incidents : List Incident) (now : ℕ) (row row' : Option RotationSchedule)
      → resume_rotation_schedule incidents slot revision now row ≡ ok row'
      → Changes slot revision row row'

Changes-revision :
    (slot : String) (revision : ℕ) (row row' : Option RotationSchedule)
    → Changes slot revision row row'
    → (revision_of row ≡ revision) × (revision_of row' ≡ revision + 1)
Changes-revision slot revision _ _ (by_update incidents input now row row' same changed e) =
    let (at, outcome) = update-writes incidents slot input now row row' e in ground arith
Changes-revision slot revision _ _ (by_resumption incidents now row row' e) =
    resume-revision incidents slot revision now row row' e

-- A revision can be used for one change of a slot's schedule: an update that changes the
-- configuration, and a resumption, go through only at the stored revision, and once one of them has,
-- every update and every resumption that names the same revision throws revision_conflict, whatever
-- sequence of updates, resumptions and reconciliations has happened to the schedule since.
pub update-fences :
    (slot : String) (revision : ℕ) (row row' : Option RotationSchedule) (os : List Operation)
    (incidents : List Incident) (input : RotationScheduleUpdateInput) (now : ℕ)
    → Changes slot revision row row'
    → input.revision ≡ revision
    → (revision_of row ≡ revision)
      × (update_rotation_schedule_configuration incidents slot input now (perform_all slot row' os)
          ≡ err revision_conflict)
      × (resume_rotation_schedule incidents slot revision now (perform_all slot row' os)
          ≡ err revision_conflict)
update-fences slot revision row row' os incidents input now change same =
    let (at, next) = Changes-revision slot revision row row' change in
    let later : revision < revision_of (perform_all slot row' os) =
      omega (arith, perform_all-revision slot row' os (revision + 1) (omega arith)) in
    (
      at,
      update_behind incidents slot input now (perform_all slot row' os) (omega arith),
      resume_behind incidents slot revision now (perform_all slot row' os) later,
    )
