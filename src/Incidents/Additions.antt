-- ===== src/Incidents/Additions.antt =====
-- How the table of incidents may change, and that an opening changes it so.
use master_dns.Common.{
  ◌≡◌, refl, sym, subst, inl, inr, ℕ, true, false, not, ◌&&◌, Option, none, some, List, ◌∷◌, String,
  map, find, update_where, is_some, Bool-cases, Result, ok, err, throw_if, first_returns,
  ok-injective,
}
use master_dns.Common.Text.{str_eq, includes}
use master_dns.Schedules.Types.{is_complete}
use master_dns.Cloud.Types.{is_present}
use master_dns.Incidents.Types.{
  RotationPolicy, CloudRotationTrigger, manual, scheduled, RotationContext, RotationIncident,
  Tables, Surroundings,
}
use master_dns.Incidents.Policy.{
  is_health, has_other_candidate, scheduled_rotation_prerequisite_error,
  manual_rotation_capability_error, rotation_authorization_error,
}
use master_dns.Incidents.Evidence.{lock_rotation_health, health_revisions, HealthTables}
use master_dns.Incidents.Opening.{
  throw_error, policy_of, schedule_of, is_due, time_of, new_incident, Opened, is_open_in, or_found,
  is_from, reuse, unless_present, same_trigger, open_cross_cloud, open_manual, ensure_policy,
  create_cross_cloud_rotation_incident, create_scheduled_rotation_incident,
  create_manual_rotation_incident,
}

abbrev pub ids : List RotationIncident → List String
ids incidents = map (λ i. i.id) incidents

abbrev pub find_id : String → List RotationIncident → Option RotationIncident
find_id id incidents = find (λ i. str_eq i.id id) incidents

-- An incident that is open, or has been terminated.
pub data IsLeft (i : RotationIncident) : Type 0 where
  open_ : is_complete i.status ≡ false → IsLeft i
  terminated : is_complete i.status ≡ true → is_some i.terminated_at ≡ true → IsLeft i

-- The table is kept, gets one incident of a slot that had none open, or has an open one replaced.
pub data Change (before : List RotationIncident) : List RotationIncident → Type 0 where
  kept : Change before before
  added :
      (i : RotationIncident)
      → find (is_open_in i.slot_id) before ≡ none
      → includes (ids before) i.id ≡ false
      → Change before (i ∷ before)
  replaced :
      (i j : RotationIncident)
      → find_id i.id before ≡ some i
      → is_complete i.status ≡ false
      → j.id ≡ i.id
      → j.slot_id ≡ i.slot_id
      → IsLeft j
      → Change before (update_where (λ x. str_eq x.id j.id) (λ x. j) before)

abbrev Opens : Tables → Opened → Type 0
Opens t opened = Change t.incidents opened.0.incidents

reuse-Opens :
    (trigger : CloudRotationTrigger) (t : Tables) (i : RotationIncident) {opened : Opened}
    → reuse trigger t i ≡ ok opened
    → Opens t opened
reuse-Opens trigger t i h = elim (Bool-cases (same_trigger i.trigger trigger)) [
  | inl e ↦ subst (Opens t) (ok-injective _ _ (rw e at h)) kept
  | inr e ↦ absurd (err_not_ok (rw e at h))
]
  where
    err_not_ok :
        {opened : Opened}
        → ◌≡◌ {A = Result String Opened} (err "rotation_active_conflict") (ok opened)
        → ⊥
    err_not_ok e = cc

unless_present-Opens :
    (trigger : CloudRotationTrigger) (t : Tables) (existing source : Option RotationIncident)
    (next : Result String Opened) {opened : Opened}
    → (existing ≡ none → next ≡ ok opened → Opens t opened)
    → unless_present trigger t (or_found existing source) next ≡ ok opened
    → Opens t opened
unless_present-Opens trigger t (some i) source next opens h = reuse-Opens trigger t i h
unless_present-Opens trigger t none (some i) next opens h = reuse-Opens trigger t i h
unless_present-Opens trigger t none none next opens h = opens refl h

open_cross_cloud-Opens :
    (tables : HealthTables) (c : RotationContext) (trigger : CloudRotationTrigger) (source : String)
    (s : Surroundings) (t : Tables) {opened : Opened}
    → includes (ids t.incidents) s.incident_id ≡ false
    → find (is_open_in c.slot.id) t.incidents ≡ none
    → open_cross_cloud tables c trigger source s t ≡ ok opened
    → Opens t opened
open_cross_cloud-Opens tables c trigger source s t fresh absent h =
    let allowed = first_returns (throw_error (rotation_authorization_error c trigger)) _ h in
    let policy = first_returns (policy_of c.policy) _ allowed.2 in
    let proved =
      first_returns
        (throw_if (is_health trigger && not (lock_rotation_health tables c s.now).failure)
          "confirmed_failure_required")
        _ policy.2 in
    let revised =
      first_returns (health_revisions (lock_rotation_health tables c s.now)) _ proved.2 in
    subst (Opens t) (ok-injective _ _ revised.2) (added _ absent fresh)

pub create_cross_cloud-Opens :
    (tables : HealthTables) (c : RotationContext) (trigger : CloudRotationTrigger) (source : String)
    (s : Surroundings) (t : Tables) {opened : Opened}
    → includes (ids t.incidents) s.incident_id ≡ false
    → create_cross_cloud_rotation_incident tables c trigger source s t ≡ ok opened
    → Change t.incidents opened.0.incidents
unfolding create_cross_cloud_rotation_incident
create_cross_cloud-Opens tables c trigger source s t fresh h =
    unless_present-Opens trigger t (find (is_open_in c.slot.id) t.incidents)
      (find (is_from c.slot.id source) t.incidents) (open_cross_cloud tables c trigger source s t)
      (open_cross_cloud-Opens tables c trigger source s t fresh) h

module _ (is_ip : String → ℕ) (scheduled_event : ℕ → ℕ → String) where
  pub create_scheduled-Opens :
      (tables : HealthTables) (c : RotationContext) (s : Surroundings) (t : Tables)
      {opened : Opened}
      → includes (ids t.incidents) s.incident_id ≡ false
      → create_scheduled_rotation_incident is_ip scheduled_event tables c s t ≡ ok opened
      → Change t.incidents opened.0.incidents
  unfolding create_scheduled_rotation_incident
  create_scheduled-Opens tables c s t fresh h =
      let found =
        first_returns (schedule_of (find (λ r. str_eq r.slot_id c.slot.id) t.schedules)) _ h in
      let one =
        first_returns (throw_if (not found.0.enabled) "rotation_schedule_disabled") _ found.2 in
      let two =
        first_returns (throw_if (is_present found.0.paused_reason) "rotation_schedule_paused") _
          one.2 in
      let three =
        first_returns (throw_if (is_present found.0.active_incident_id) "rotation_schedule_active")
          _ two.2 in
      let four =
        first_returns
          (throw_if (not (is_due found.0.next_run_at s.now)) "rotation_schedule_not_due") _
          three.2 in
      let five =
        first_returns (throw_error (scheduled_rotation_prerequisite_error is_ip c)) _ four.2 in
      let created =
        first_returns
          (create_cross_cloud_rotation_incident tables c scheduled
            (scheduled_event found.0.revision (time_of found.0.next_run_at)) s t)
          _ five.2 in
      subst (Opens t) (ok-injective _ _ created.2)
        (create_cross_cloud-Opens tables c scheduled _ s t fresh created.1)

ensure_policy-incidents :
    (slot : String) (started : ℕ) (policy : Option RotationPolicy) (t : Tables)
    → (ensure_policy slot started policy t).0.incidents ≡ t.incidents
ensure_policy-incidents slot started none t = refl
ensure_policy-incidents slot started (some policy) t = refl

module _ (is_ip : String → ℕ) where
  open_manual-Opens :
      (c : RotationContext) (source : String) (s : Surroundings) (t : Tables) {opened : Opened}
      → includes (ids t.incidents) s.incident_id ≡ false
      → find (is_open_in c.slot.id) t.incidents ≡ none
      → open_manual is_ip c source s t ≡ ok opened
      → Opens t opened
  open_manual-Opens c source s t fresh absent h =
      let one =
        first_returns (throw_if (has_other_candidate c.slot) "rotation_candidate_exists") _ h in
      let two = first_returns (throw_error (rotation_authorization_error c manual)) _ one.2 in
      let three = first_returns (throw_error (manual_rotation_capability_error is_ip c)) _ two.2 in
      subst (Opens t) (ok-injective _ _ three.2) (
        subst
          (λ x. Change t.incidents (
            new_incident c manual source s (ensure_policy c.slot.id s.started c.policy t).1.revision
              none
            ∷ x))
          (sym (ensure_policy-incidents c.slot.id s.started c.policy t))
          (added
            (new_incident c manual source s
              (ensure_policy c.slot.id s.started c.policy t).1.revision none)
            absent fresh))

  pub create_manual-Opens :
      (c : RotationContext) (source : String) (s : Surroundings) (t : Tables) {opened : Opened}
      → includes (ids t.incidents) s.incident_id ≡ false
      → create_manual_rotation_incident is_ip c source s t ≡ ok opened
      → Change t.incidents opened.0.incidents
  unfolding create_manual_rotation_incident
  create_manual-Opens c source s t fresh h =
      unless_present-Opens manual t (find (is_open_in c.slot.id) t.incidents)
        (find (is_from c.slot.id source) t.incidents) (open_manual is_ip c source s t)
        (open_manual-Opens c source s t fresh) h
