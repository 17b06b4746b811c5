-- ===== src/Schedules/Types.antt =====
-- The rows of `rotation_schedules` and `rotation_incidents`, and the queries on incidents.
use Prim.Native.Nat.{compare, Ordering}
use master_dns.Common.{
  ℕ, ◌+◌, ◌*◌, Bool, true, false, not, ◌&&◌, Option, none, some, String, List, is_some, find,
  filter, get_or,
}
use master_dns.Common.Text.{str_eq}
use master_dns.Strategy.Order.{sort, then_by, compare_texts}
use master_dns.Strategy.Select.{head?}

pub data IncidentStatus : Type 0 where
  active paused exhausted complete : IncidentStatus

-- The columns that the schedule's code reads. Times are in milliseconds.
pub record Incident : Type 0 where
  pub id : String
  pub slot_id : String
  pub status : IncidentStatus
  pub error_code : Option String
  pub created_at : ℕ
  pub updated_at : ℕ
  pub completed_at : Option ℕ
  pub terminated_at : Option ℕ

pub record RotationSchedule : Type 0 where
  pub slot_id : String
  pub enabled : Bool
  pub interval_minutes : ℕ
  pub revision : ℕ
  pub next_run_at : Option ℕ
  pub active_incident_id : Option String
  pub last_started_at : Option ℕ
  pub last_completed_at : Option ℕ
  pub last_handled_incident_id : Option String
  pub last_handled_incident_updated_at : Option ℕ
  pub paused_reason : Option String
  pub updated_at : ℕ

abbrev pub rotation_schedule_deadline : (now interval_minutes : ℕ) → ℕ
rotation_schedule_deadline now interval_minutes = now + interval_minutes * 60000

abbrev pub is_complete : IncidentStatus → Bool
is_complete complete = true
is_complete _ = false

-- Where the id is a column of `rotation_incidents`, a primary key.
unfoldable pub find_incident : String → List Incident → Option Incident
find_incident id incidents = find (λ i. str_eq i.id id) incidents

-- Latest first, by the time of completion, then of creation, then by the id.
abbrev pub compare_completions : Incident → Incident → Ordering
compare_completions a b =
    then_by (compare (get_or b.completed_at 0) (get_or a.completed_at 0))
      (then_by (compare b.created_at a.created_at) (compare_texts b.id a.id))

unfoldable pub latest_schedule_completion : String → List Incident → Option Incident
latest_schedule_completion slot_id incidents = head? (
    sort compare_completions (
      filter (λ i. str_eq i.slot_id slot_id && is_complete i.status && is_some i.completed_at)
        incidents))

abbrev pub updated_at_of : Option Incident → Option ℕ
updated_at_of none = none
updated_at_of (some i) = some i.updated_at

abbrev pub incident_observation_time : String → List Incident → Option ℕ
incident_observation_time id incidents = updated_at_of (find_incident id incidents)

-- An id is a UUID, never empty, so that it counts as true exactly if it is not null.
abbrev pub lock_schedule_incident : Option String → List Incident → Option Incident
lock_schedule_incident none incidents = none
lock_schedule_incident (some id) incidents = find_incident id incidents

-- A nullable text counts as false if it is null or empty.
abbrev pub is_set : Option String → Bool
is_set none = false
is_set (some text) = not (str_eq text "")
