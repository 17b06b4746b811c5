-- ===== src/Incidents/Terminating.antt =====
-- packages/db/src/rotation-termination.ts: `terminateRotationIncident`.
use master_dns.Common.{
  ℕ, suc, Bool, true, false, not, ◌&&◌, Option, none, some, List, [], ◌∷◌, ◌++◌, String, find,
  filter, map, update_where, is_some, Result, ok, err, if◌then◌else◌,
}
use master_dns.Common.Text.{str_eq, includes}
use master_dns.Schedules.Types.{IncidentStatus, is_complete}
use master_dns.Operations.Types.{OperationStatus, StepStatus}
use master_dns.Incidents.Types.{
  CleanupStatus, RotationIncident, RotationPolicy, RotationResource, RotationLease, Tables,
  Surroundings,
}
use master_dns.Incidents.Evidence.{is_id}
use master_dns.Incidents.Resuming.{put_incident}

pub record PublicationChild : Type 0 where
  pub pool_id : String
  pub event_id : String
  pub policy_revision : ℕ
  pub operation_id : Option String

pub record RotationPublication : Type 0 where
  pub incident_id : Option String
  pub operation_id : Option String
  pub children : List PublicationChild
  pub error_code : Option String
  pub updated_at : ℕ

pub record ReconcileIntent : Type 0 where
  pub event_id : String
  pub completed_at : Option ℕ
  pub updated_at : ℕ

pub record OperationRow : Type 0 where
  pub id : String
  pub idempotency_key : String
  pub status : OperationStatus
  pub updated_at : ℕ

pub record OperationStepRow : Type 0 where
  pub operation_id : String
  pub status : StepStatus
  pub finished_at : Option ℕ
  pub updated_at : ℕ

pub record Reservation : Type 0 where
  pub step_id : String
  pub consumed_at : Option ℕ

-- What an incident has set going elsewhere.
pub record Effects : Type 0 where
  pub publications : List RotationPublication
  pub intents : List ReconcileIntent
  pub operations : List OperationRow
  pub operation_steps : List OperationStepRow
  pub reservations : List Reservation

abbrev pub is_cancellable : OperationStatus → Bool
is_cancellable OperationStatus.pending = true
is_cancellable OperationStatus.running = true
is_cancellable OperationStatus.partial = true
is_cancellable OperationStatus.failed = true
is_cancellable _ = false

abbrev pub is_skippable : StepStatus → Bool
is_skippable StepStatus.pending = true
is_skippable StepStatus.failed = true
is_skippable _ = false

abbrev pub is_unreleased : CleanupStatus → Bool
is_unreleased CleanupStatus.pending = true
is_unreleased CleanupStatus.failed = true
is_unreleased _ = false

abbrev pub publications_of : String → Effects → List RotationPublication
publications_of id e = filter (λ p. is_id p.incident_id id) e.publications

abbrev pub children_of : List RotationPublication → List PublicationChild
children_of [] = []
children_of (p ∷ ps) = p.children ++ children_of ps

abbrev pub if_some : Option String → List String
if_some none = []
if_some (some id) = if str_eq id "" then [] else id ∷ []

abbrev pub child_operations : List PublicationChild → List String
child_operations [] = []
child_operations (x ∷ xs) = if_some x.operation_id ++ child_operations xs

abbrev pub known_operations : List RotationPublication → List String
known_operations [] = []
known_operations (p ∷ ps) =
    if_some p.operation_id ++ (child_operations p.children ++ known_operations ps)

abbrev pub steps_of : String → Tables → List String
steps_of id t =
    let attempts = map (λ a. a.id) (filter (λ a. str_eq a.incident_id id) t.attempts) in
    map (λ x. x.id) (filter (λ x. includes attempts x.attempt_id) t.steps)

abbrev pub supersede : ℕ → OperationRow → OperationRow
supersede now o = record o { status = OperationStatus.superseded; updated_at = now }

abbrev pub skip : ℕ → OperationStepRow → OperationStepRow
skip now x = record x { status = StepStatus.skipped; finished_at = some now; updated_at = now }

abbrev pub disable : ℕ → RotationPolicy → RotationPolicy
disable now policy = record policy {
  enabled = false;
  revision = suc policy.revision;
  updated_at = now;
}

abbrev pub retain : RotationResource → RotationResource
retain r = record r {
  cleanup_status = CleanupStatus.retained;
  cleanup_error = some "manual_terminated";
  cleanup_due_at = none;
}

-- A lease with an unresolved step stays with the incident.
abbrev pub fence : ℕ → RotationLease → RotationLease
fence now lease = record lease {
  holder = none;
  expires_at = now;
  revision = suc lease.revision;
  incident_id = if is_some lease.unresolved_step_id then lease.incident_id else none;
}

abbrev pub end_incident : Surroundings → RotationIncident → RotationIncident
end_incident s i = record i {
  status = IncidentStatus.complete;
  terminated_at = some s.now;
  completed_at = some s.now;
  paused_by_user_id = s.actor_user_id;
  error_code = some "manual_terminated";
  updated_at = s.now;
}

unfoldable pub end_rotation : Surroundings → RotationIncident → Tables → Tables
end_rotation s i t = put_incident (end_incident s i) (record t {
  policies = update_where (λ p. str_eq p.slot_id i.slot_id) (disable s.now) t.policies;
  resources =
      update_where (λ r. str_eq r.incident_id i.id && is_unreleased r.cleanup_status) retain
        t.resources;
  leases = update_where (λ l. is_id l.incident_id i.id) (fence s.now) t.leases;
})

-- `operation_key` is the text of a child's idempotency key.
module _ (operation_key : PublicationChild → String) where
  -- Operations of the publications, and those that were planned but not yet observed.
  abbrev pub cancelled_operations : String → Effects → List String
  cancelled_operations id e =
      let children = children_of (publications_of id e) in
      known_operations (publications_of id e)
      ++ map (λ o. o.id)
          (filter (λ o. includes (map operation_key children) o.idempotency_key) e.operations)

  unfoldable pub cancel_effects : (id : String) → (now : ℕ) → Tables → Effects → Effects
  cancel_effects id now t e = record {
    publications =
        update_where (λ p. is_id p.incident_id id)
          (λ p. record p { error_code = some "manual_terminated"; updated_at = now })
          e.publications;
    intents =
        update_where
          (λ x. includes (map (λ y. y.event_id) (children_of (publications_of id e))) x.event_id)
          (λ x. record x { completed_at = some now; updated_at = now }) e.intents;
    operations =
        update_where (λ o. includes (cancelled_operations id e) o.id && is_cancellable o.status)
          (supersede now) e.operations;
    operation_steps =
        update_where
          (λ x. includes (cancelled_operations id e) x.operation_id && is_skippable x.status)
          (skip now) e.operation_steps;
    reservations =
        filter (λ r. not (includes (steps_of id t) r.step_id && not (is_some r.consumed_at)))
          e.reservations;
  }

  abbrev pub terminate_found :
      Surroundings
      → Option RotationIncident
      → Tables
      → Effects
      → Result String (Tables × Effects × RotationIncident)
  terminate_found s none t e = err "rotation_not_found"
  terminate_found s (some i) t e =
      if is_some i.terminated_at
      then ok (t, e, i)
      else if is_complete i.status
      then err "rotation_not_resumable"
      else ok (end_rotation s i t, cancel_effects i.id s.now t e, end_incident s i)

  unfoldable pub terminate_rotation_incident :
      (id : String)
      → Surroundings
      → Tables
      → Effects
      → Result String (Tables × Effects × RotationIncident)
  terminate_rotation_incident id s t e =
      terminate_found s (find (λ x. str_eq x.id id) t.incidents) t e
