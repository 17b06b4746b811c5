-- ===== src/Incidents/Changes.antt =====
-- The requests on incidents as steps between states, and what each does to the table of incidents.
use master_dns.Common.{
  find_holds, all, filter, ◌≡◌, refl, sym, ap, ◌∙◌, subst, inl, inr, ℕ, Bool, true, false, ◌&&◌,
  Option, none, some, List, String, find, update_where, is_some, Bool-cases, Result, ok, err,
  throw_if, first_returns, ok-injective, if◌then◌else◌,
}
use master_dns.Common.Text.{str_eq, str_eq_iff, includes}
use master_dns.Schedules.Types.{is_complete}
use master_dns.Incidents.Types.{
  HealthRevisions, health, RotationContext, RotationIncident, RotationAttempt, Tables, Surroundings,
}
use master_dns.Incidents.Policy.{is_manual, rotation_authorization_error}
use master_dns.Incidents.Evidence.{HealthTables}
use master_dns.Incidents.Opening.{
  throw_error, policy_of, Opened, create_scheduled_rotation_incident,
  create_manual_rotation_incident, create_rotation_incident,
}
use master_dns.Incidents.Additions.{
  ids, find_id, IsLeft, open_, terminated, Change, kept, replaced, create_cross_cloud-Opens,
  create_scheduled-Opens, create_manual-Opens,
}
use master_dns.Incidents.Resuming.{
  is_unresolved, resumed_revisions, is_cloud, find_attempt, reactivate, is_charged, put_incident,
  is_conclusive, is_of_attempt, incident_of, continue_cloud, settle_attempt, add_segment, restart,
  is_active, resume_rotation_incident,
}
use master_dns.Incidents.Terminating.{
  PublicationChild, Effects, terminate_found, terminate_rotation_incident, end_incident,
  end_rotation,
}

module _ (is_ip : String → ℕ) (scheduled_event : ℕ → ℕ → String) where
  -- Any step of the requests on incidents, each on the state and the context of its transaction.
  pub data Step (operation_key : PublicationChild → String)
      : Tables → Effects → Tables → Effects → Type 0 where
    open_health :
        (tables : HealthTables) (c : RotationContext) (source : String) (s : Surroundings)
        (t : Tables) (e : Effects) (opened : Opened)
        → includes (ids t.incidents) s.incident_id ≡ false
        → create_rotation_incident tables c source s t ≡ ok opened
        → Step operation_key t e opened.0 e
    open_scheduled :
        (tables : HealthTables) (c : RotationContext) (s : Surroundings) (t : Tables) (e : Effects)
        (opened : Opened)
        → includes (ids t.incidents) s.incident_id ≡ false
        → create_scheduled_rotation_incident is_ip scheduled_event tables c s t ≡ ok opened
        → Step operation_key t e opened.0 e
    open_manually :
        (c : RotationContext) (source : String) (s : Surroundings) (t : Tables) (e : Effects)
        (opened : Opened)
        → includes (ids t.incidents) s.incident_id ≡ false
        → create_manual_rotation_incident is_ip c source s t ≡ ok opened
        → Step operation_key t e opened.0 e
    resume :
        (tables : HealthTables) (c : RotationContext) (id : String) (s : Surroundings) (t : Tables)
        (e : Effects) (resumed : Tables × RotationIncident)
        → resume_rotation_incident tables c id s t ≡ ok resumed
        → Step operation_key t e resumed.0 e
    terminate :
        (id : String) (s : Surroundings) (t : Tables) (e : Effects)
        (ended : Tables × Effects × RotationIncident)
        → terminate_rotation_incident operation_key id s t e ≡ ok ended
        → Step operation_key t e ended.0 ended.1

-- The open incident that a request was found to be about.
incident_of-open :
    (found : Option RotationIncident) {i : RotationIncident}
    → incident_of found ≡ ok i
    → (found ≡ some i) × (is_complete i.status ≡ false)
incident_of-open none h = cc
incident_of-open (some j) h = elim (Bool-cases (is_complete j.status)) [
  | inl e ↦ absurd (err_not_ok (rw e at h))
  | inr e ↦ (
    ap some (ok-injective _ _ (rw e at h)),
    subst (λ x. is_complete x.status ≡ false) (ok-injective _ _ (rw e at h)) e,
  )
]
  where
    err_not_ok :
        {i : RotationIncident}
        → ◌≡◌ {A = Result String RotationIncident} (err "rotation_not_resumable") (ok i)
        → ⊥
    err_not_ok e = cc

settle_attempt-incidents :
    (continuing : Bool) (now : ℕ) (a : RotationAttempt) (t : Tables)
    → (settle_attempt continuing now a t).incidents ≡ t.incidents
settle_attempt-incidents true now a t = refl
settle_attempt-incidents false now a t = refl

add_segment-incidents :
    (is_manual : Bool) (id : String) (max_attempts : ℕ) (s : Surroundings) (t : Tables)
    → (add_segment is_manual id max_attempts s t).incidents ≡ t.incidents
add_segment-incidents true id max_attempts s t = refl
add_segment-incidents false id max_attempts s t = refl

continue_cloud-incidents :
    (in_cloud : Bool) (attempt : Option RotationAttempt) (now : ℕ) (t : Tables) {settled : Tables}
    → continue_cloud in_cloud attempt now t ≡ ok settled
    → settled.incidents ≡ t.incidents
continue_cloud-incidents true (some a) now t h =
    elim (Bool-cases (all (λ x. is_conclusive x.status) (filter (is_of_attempt a.id) t.steps))) [
      | inl e ↦
          ap (λ x. x.incidents) (sym (ok-injective _ _ (rw e at h)))
          ∙ settle_attempt-incidents a.charged now a t
      | inr e ↦ absurd (err_not_ok (rw e at h))
    ]
  where
    err_not_ok :
        {settled : Tables}
        → ◌≡◌ {A = Result String Tables} (err "cloud_observation_required") (ok settled)
        → ⊥
    err_not_ok e = cc
continue_cloud-incidents true none now t h = ap (λ x. x.incidents) (sym (ok-injective _ _ h))
continue_cloud-incidents false (some a) now t h = ap (λ x. x.incidents) (sym (ok-injective _ _ h))
continue_cloud-incidents false none now t h = ap (λ x. x.incidents) (sym (ok-injective _ _ h))

-- An incident is replaced in the table of any tables with the same incidents.
replaced_in :
    (i j : RotationIncident) (t u : Tables)
    → u.incidents ≡ t.incidents
    → find_id i.id t.incidents ≡ some i
    → is_complete i.status ≡ false
    → j.id ≡ i.id
    → j.slot_id ≡ i.slot_id
    → IsLeft j
    → Change t.incidents (put_incident j u).incidents
replaced_in i j t u same found opened id slot left =
    subst (λ x. Change t.incidents (update_where (λ y. str_eq y.id j.id) (λ y. j) x)) (sym same)
      (replaced i j found opened id slot left)

-- What is found by an id has the id.
pub own_id :
    (id : String) (incidents : List RotationIncident) {i : RotationIncident}
    → find_id id incidents ≡ some i
    → find_id i.id incidents ≡ some i
own_id id incidents {i} h =
    subst (λ x. find_id x incidents ≡ some i)
      (sym ((str_eq_iff i.id id).0 (find_holds (λ x. str_eq x.id id) incidents h))) h

module _ (c : RotationContext) (s : Surroundings) where
  restart-Change :
      (policy_revision max_attempts : ℕ) (revisions : Option HealthRevisions) (i : RotationIncident)
      (t : Tables) {resumed : Tables × RotationIncident}
      → find_id i.id t.incidents ≡ some i
      → is_complete i.status ≡ false
      → restart c policy_revision max_attempts revisions s i t ≡ ok resumed
      → Change t.incidents resumed.0.incidents
  restart-Change policy_revision max_attempts revisions i t found opened h =
      let settled =
        first_returns
          (continue_cloud (is_cloud i.phase) (find_attempt t i.current_attempt_id) s.now t) _ h in
      subst (λ r. Change t.incidents r.0.incidents) (ok-injective _ _ settled.2)
        (replaced_in i
          (reactivate c (is_cloud i.phase && is_charged (find_attempt t i.current_attempt_id))
            policy_revision revisions s i)
          t (add_segment (is_manual i.trigger) i.id max_attempts s settled.0)
          (add_segment-incidents (is_manual i.trigger) i.id max_attempts s settled.0
            ∙ continue_cloud-incidents (is_cloud i.phase) (find_attempt t i.current_attempt_id)
                s.now t settled.1)
          found opened refl refl (open_ refl))

  unless_active-Change :
      (policy_revision max_attempts : ℕ) (revisions : Option HealthRevisions) (i : RotationIncident)
      (t : Tables) (active : Bool) {resumed : Tables × RotationIncident}
      → find_id i.id t.incidents ≡ some i
      → is_complete i.status ≡ false
      → (if active then ok (t, i) else restart c policy_revision max_attempts revisions s i t)
        ≡ ok resumed
      → Change t.incidents resumed.0.incidents
  unless_active-Change policy_revision max_attempts revisions i t true found opened h =
      subst (λ r. Change t.incidents r.0.incidents) (ok-injective _ _ h) kept
  unless_active-Change policy_revision max_attempts revisions i t false found opened h =
      restart-Change policy_revision max_attempts revisions i t found opened h

  pub resume-Change :
      (tables : HealthTables) (id : String) (t : Tables) {resumed : Tables × RotationIncident}
      → resume_rotation_incident tables c id s t ≡ ok resumed
      → Change t.incidents resumed.0.incidents
  unfolding resume_rotation_incident
  resume-Change tables id t h =
      let found = first_returns (incident_of (find_id id t.incidents)) _ h in
      let allowed =
        first_returns (throw_error (rotation_authorization_error c found.0.trigger)) _ found.2 in
      let policy = first_returns (policy_of c.policy) _ allowed.2 in
      let revised = first_returns (resumed_revisions tables c found.0 s.now) _ policy.2 in
      let resolved =
        first_returns
          (throw_if (is_unresolved (find (λ l. str_eq l.physical_key c.physical_key) t.leases))
            "cloud_observation_required")
          _ revised.2 in
      let present = incident_of-open (find_id id t.incidents) found.1 in
      unless_active-Change policy.0.revision policy.0.max_attempts revised.0 found.0 t
        (is_active found.0.status) (own_id id t.incidents present.0) present.1 resolved.2

terminate_found-Change :
    (operation_key : PublicationChild → String) (s : Surroundings) (found : Option RotationIncident)
    (t : Tables) (e : Effects) {ended : Tables × Effects × RotationIncident}
    → ((i : RotationIncident) → found ≡ some i → find_id i.id t.incidents ≡ some i)
    → terminate_found operation_key s found t e ≡ ok ended
    → Change t.incidents ended.0.incidents
unfolding end_rotation
terminate_found-Change operation_key s none t e is_found h = cc
terminate_found-Change operation_key s (some i) t e is_found h =
    elim (Bool-cases (is_some i.terminated_at)) [
      | inl b ↦ subst (λ r. Change t.incidents r.0.incidents) (ok-injective _ _ (rw b at h)) kept
      | inr b ↦ elim (Bool-cases (is_complete i.status)) [
        | inl d ↦ absurd (err_not_ok (rw (b, d) at h))
        | inr d ↦
            subst (λ r. Change t.incidents r.0.incidents) (ok-injective _ _ (rw (b, d) at h))
              (ended_in i (is_found i refl) d)
      ]
    ]
  where
    err_not_ok :
        {ended : Tables × Effects × RotationIncident}
        → ◌≡◌ {A = Result String (Tables × Effects × RotationIncident)}
            (err "rotation_not_resumable")
            (ok ended)
        → ⊥
    err_not_ok e = cc

    ended_in :
        (i : RotationIncident)
        → find_id i.id t.incidents ≡ some i
        → is_complete i.status ≡ false
        → Change t.incidents (end_rotation s i t).incidents
    ended_in i found d = replaced i (end_incident s i) found d refl refl (terminated refl refl)

pub terminate-Change :
    (operation_key : PublicationChild → String) (id : String) (s : Surroundings) (t : Tables)
    (e : Effects) {ended : Tables × Effects × RotationIncident}
    → terminate_rotation_incident operation_key id s t e ≡ ok ended
    → Change t.incidents ended.0.incidents
unfolding terminate_rotation_incident
terminate-Change operation_key id s t e h =
    terminate_found-Change operation_key s (find_id id t.incidents) t e
      (λ i found. own_id id t.incidents found) h

module _ (is_ip : String → ℕ) (scheduled_event : ℕ → ℕ → String)
    (operation_key : PublicationChild → String) where
  pub Step-Change :
      (t u : Tables) (e f : Effects)
      → Step is_ip scheduled_event operation_key t e u f
      → Change t.incidents u.incidents
  Step-Change _ _ _ _ (open_health tables c source s t e opened fresh h) =
      create_cross_cloud-Opens tables c health source s t fresh h
  Step-Change _ _ _ _ (open_scheduled tables c s t e opened fresh h) =
      create_scheduled-Opens is_ip scheduled_event tables c s t fresh h
  Step-Change _ _ _ _ (open_manually c source s t e opened fresh h) =
      create_manual-Opens is_ip c source s t fresh h
  Step-Change _ _ _ _ (resume tables c id s t e resumed h) = resume-Change c s tables id t h
  Step-Change _ _ _ _ (terminate id s t e ended h) = terminate-Change operation_key id s t e h
