-- ===== src/Schedules/Resuming.antt =====
-- A resumption consumes what the schedule was paused for.
use mathlib.Core.Option.{some-injective}
use master_dns.Common.{
  ℕ, ◌≡◌, ◌==◌, Bool, true, false, not, Option, none, some, err, String, List, [], ◌∷◌, ok, ◌>>◌,
  throw_if, if◌then◌else◌, ◌&&◌, arith, Bool-cases, inl, inr, refl, is_some, find, ==_iff, ap,
  subst, sym, ◌∙◌, first_returns, ok-injective,
}
use master_dns.Common.Text.{str_eq, str_eq_iff}
use master_dns.Schedules.Types.{
  Incident, RotationSchedule, IncidentStatus, active, paused, exhausted, complete, is_complete,
  find_incident, is_set, rotation_schedule_deadline, latest_schedule_completion,
  lock_schedule_incident,
}
use master_dns.Schedules.Operations.{
  revision_conflict, disabled, not_paused, is_handled, has_ended, resumed, resume, finish_or_link,
  resume_rotation_schedule, reconcile_rotation_schedule, observed_incident, handle_incident,
  finish_run,
}
use master_dns.Incidents.Types.{RotationContext, Tables, Surroundings}
use master_dns.Incidents.Evidence.{HealthTables}
use master_dns.Incidents.Opening.{create_scheduled_rotation_incident}

module _ {ℓ} {A : Type ℓ} (p q : A → Bool) where
  find-&& :
      (xs : List A) (x : A) → find p xs ≡ some x → q x ≡ true → find (λ y. q y && p y) xs ≡ some x
  find-&& [] x e h = e
  find-&& (y ∷ ys) x e h = elim (Bool-cases (p y)) [
    | inl t ↦
        let same = some-injective _ _ (rw t at e) in
        rw (t, subst (λ z. q z ≡ true) (sym same) h) (rw t at e)
    | inr f ↦ elim (Bool-cases (q y)) [
      | inl g ↦ rw (g, f) (find-&& ys x (rw f at e) h)
      | inr g ↦ rw g (find-&& ys x (rw f at e) h)
    ]
  ]

  find-holds : (xs : List A) (x : A) → find p xs ≡ some x → p x ≡ true
  find-holds [] x e = cc
  find-holds (y ∷ ys) x e = elim (Bool-cases (p y)) [
    | inl t ↦ subst (λ z. p z ≡ true) (some-injective _ _ (rw t at e)) t
    | inr f ↦ find-holds ys x (rw f at e)
  ]

open_lem :
    (s : RotationSchedule) (i : Incident) (status : IncidentStatus) (at : Option ℕ)
    (incidents : List Incident) (now : ℕ)
    → is_complete status ≡ false
    → is_some s.active_incident_id ≡ true
    → finish_or_link s i status at incidents now ≡ s
open_lem s i active at incidents now o l = rw l refl
open_lem s i paused at incidents now o l = rw l refl
open_lem s i exhausted at incidents now o l = rw l refl
open_lem s i complete at incidents now o l = cc

handled_lem :
    (s : RotationSchedule) (i : Incident) (incidents : List Incident) (now : ℕ)
    → is_complete i.status ≡ false
    → is_some s.active_incident_id ≡ true
    → is_handled s i ≡ true
    → handle_incident s i incidents now ≡ s
unfolding handle_incident
handled_lem s i incidents now o l h =
    ground (arith, open_lem s i i.status i.completed_at incidents now o l)

resume-writes :
    (incidents : List Incident) (slot : String) (revision now : ℕ) (s : RotationSchedule)
    (row : Option RotationSchedule)
    → resume_rotation_schedule incidents slot revision now (some s) ≡ ok row
    → (s.enabled ≡ true) × (resume incidents slot now s ≡ ok row)
unfolding resume_rotation_schedule
resume-writes incidents slot revision now s row e =
    let (u, p, q) =
      first_returns
        (throw_if (not (s.revision == revision)) revision_conflict
          >> throw_if (not s.enabled) disabled
          >> throw_if (not (is_set s.paused_reason)) not_paused)
        (λ _. resume incidents slot now s) e in
    (ground arith, q)

linked_lem :
    (incidents : List Incident) (slot : String) (now : ℕ) (s : RotationSchedule) (id : String)
    (i : Incident)
    → s.active_incident_id ≡ some id
    → find_incident id incidents ≡ some i
    → is_complete i.status ≡ false
    → resume incidents slot now s
      ≡ ok (some (resumed s (some id) (latest_schedule_completion slot incidents) incidents now))
linked_lem incidents slot now s id i linked found open_ =
    let stays : (if has_ended (lock_schedule_incident s.active_incident_id incidents)
          then none
          else s.active_incident_id)
        ≡ some id =
      rw (linked, found, open_) refl in
    ap (λ l. ok (some (resumed s l (latest_schedule_completion slot incidents) incidents now)))
      stays

resumed-handles :
    (incidents : List Incident) (now : ℕ) (s : RotationSchedule) (id : String) (i : Incident)
    (latest : Option Incident)
    → find_incident id incidents ≡ some i
    → str_eq i.id id ≡ true
    → is_handled (resumed s (some id) latest incidents now) i ≡ true
resumed-handles incidents now s id i latest found same =
    let flipped : str_eq id i.id ≡ true =
      (str_eq_iff id i.id).1 (sym ((str_eq_iff i.id id).0 same)) in
    rw (flipped, found) ((==_iff i.updated_at i.updated_at).1 refl)

-- The schedule is linked to the incident, and nothing but this keeps it from running at the deadline.
abbrev pub IsWaiting : String → (deadline : ℕ) → RotationSchedule → Type 0
IsWaiting id deadline s =
    (s.enabled ≡ true)
    × (s.paused_reason ≡ none)
    × (s.active_incident_id ≡ some id)
    × (s.next_run_at ≡ some deadline)

-- A run can start at the deadline.
abbrev pub IsReady : (deadline : ℕ) → Option RotationSchedule → Type 0
IsReady deadline none = ⊥
IsReady deadline (some s) =
    (s.enabled ≡ true)
    × (s.paused_reason ≡ none)
    × (s.active_incident_id ≡ none)
    × (s.next_run_at ≡ some deadline)

-- While a schedule is linked, no run starts.
waiting-refused :
    (is_ip : String → ℕ) (scheduled_event : ℕ → ℕ → String) (tables : HealthTables)
    (c : RotationContext) (around : Surroundings) (t : Tables) (id : String) (deadline : ℕ)
    (s : RotationSchedule)
    → str_eq id "" ≡ false
    → IsWaiting id deadline s
    → find (λ r. str_eq r.slot_id c.slot.id) t.schedules ≡ some s
    → create_scheduled_rotation_incident is_ip scheduled_event tables c around t
      ≡ err "rotation_schedule_active"
unfolding create_scheduled_rotation_incident
waiting-refused is_ip scheduled_event tables c around t id deadline s filled
      (enabled, unpaused, linked, due) there =
    rw there (rw (enabled, unpaused, linked, filled) refl)

-- When the linked incident has completed, the next reconciliation frees the schedule.
waiting-freed :
    (incidents : List Incident) (slot id : String) (deadline now done : ℕ) (s : RotationSchedule)
    (i : Incident)
    → IsWaiting id deadline s
    → find_incident id incidents ≡ some i
    → str_eq i.slot_id slot ≡ true
    → i.status ≡ complete
    → i.completed_at ≡ some done
    → i.terminated_at ≡ none
    → IsReady
        (rotation_schedule_deadline done s.interval_minutes)
        (reconcile_rotation_schedule incidents slot now (some s))
unfolding reconcile_rotation_schedule observed_incident find_incident handle_incident finish_run
waiting-freed incidents slot id deadline now done s i (enabled, unpaused, linked, due) found here
      ended at natural =
    let seen = find-&& (λ j. str_eq j.id id) (λ j. str_eq j.slot_id slot) incidents i found here in
    rw (linked, seen, ended, at, natural) (enabled, unpaused, refl, rw (enabled, unpaused) refl)

-- A schedule that was paused while it was linked to an incident of its slot that is still open is
-- enabled and no longer paused once it is resumed, has the deadline of an interval from then, and
-- stays linked. As long as the incidents stay as they are, reconciliations change nothing, so that it
-- is not paused for the same incident again, and while the table has the row as it is no run starts:
-- the attempt throws rotation_schedule_active. Once the incident has completed without being
-- terminated, the next reconciliation takes the link away, and the schedule can run an interval after
-- the completion.
pub resume-lasts :
    (is_ip : String → ℕ) (scheduled_event : ℕ → ℕ → String) (tables : HealthTables)
    (c : RotationContext) (around : Surroundings) (t : Tables)
    (incidents incidents' : List Incident) (slot id : String) (revision now now' done : ℕ)
    (s : RotationSchedule) (i i' : Incident) (row : Option RotationSchedule)
    → resume_rotation_schedule incidents slot revision now (some s) ≡ ok row
    → s.active_incident_id ≡ some id
    → str_eq id "" ≡ false
    → find_incident id incidents ≡ some i
    → str_eq i.slot_id slot ≡ true
    → is_complete i.status ≡ false
    → find (λ r. str_eq r.slot_id c.slot.id) t.schedules ≡ row
    → find_incident id incidents' ≡ some i'
    → str_eq i'.slot_id slot ≡ true
    → i'.status ≡ complete
    → i'.completed_at ≡ some done
    → i'.terminated_at ≡ none
    → ((r : RotationSchedule) × (row ≡ some r)
        × IsWaiting id (rotation_schedule_deadline now s.interval_minutes) r)
      × (reconcile_rotation_schedule incidents slot now' row ≡ row)
      × (create_scheduled_rotation_incident is_ip scheduled_event tables c around t
          ≡ err "rotation_schedule_active")
      × IsReady
          (rotation_schedule_deadline done s.interval_minutes)
          (reconcile_rotation_schedule incidents' slot now' row)
unfolding reconcile_rotation_schedule observed_incident find_incident
resume-lasts is_ip scheduled_event tables c around t incidents incidents' slot id revision now now'
      done s i i' row e linked filled found here open_ stored found' here' ended at natural =
    let (enabled, written) = resume-writes incidents slot revision now s row e in
    let latest = latest_schedule_completion slot incidents in
    let s' = resumed s (some id) latest incidents now in
    let is : row ≡ some s' =
      ok-injective _ _ (sym written ∙ linked_lem incidents slot now s id i linked found open_) in
    let same : str_eq i.id id ≡ true =
      find-holds (λ j. str_eq j.id id) (λ j. true) incidents i found in
    let seen = find-&& (λ j. str_eq j.id id) (λ j. str_eq j.slot_id slot) incidents i found here in
    let waiting : IsWaiting id (rotation_schedule_deadline now s.interval_minutes) s' =
      (enabled, refl, refl, refl) in
    (
      (s', is, waiting),
      rw (is, seen)
          (ap some (
            handled_lem s' i incidents now' open_ refl
              (resumed-handles incidents now s id i latest found same))),
      waiting-refused is_ip scheduled_event tables c around t id
          (rotation_schedule_deadline now s.interval_minutes) s' filled waiting (stored ∙ is),
      subst
          (λ r.
            IsReady (rotation_schedule_deadline done s.interval_minutes)
              (reconcile_rotation_schedule incidents' slot now' r))
          (sym is)
          (waiting-freed incidents' slot id (rotation_schedule_deadline now s.interval_minutes) now'
            done s' i' waiting found' here' ended at natural),
    )
