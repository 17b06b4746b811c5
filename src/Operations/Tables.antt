-- ===== src/Operations/Tables.antt =====
-- The reads and updates of the tables that the worker's transactions consist of.
use master_dns.Common.{
  ℕ, ◌+◌, Bool, true, false, not, ◌&&◌, ◌||◌, Option, none, some, String, List, [], ◌∷◌, ◌==◌, any,
  if◌then◌else◌,
}
use master_dns.Common.Text.{str_eq}
use master_dns.Operations.Types.{
  OperationStatus, pending, running, superseded, StepStatus, skipped, Step, Revisions, Operation,
  Database,
}

unfoldable pub is_terminal_operation_status : OperationStatus → Bool
is_terminal_operation_status pending = false
is_terminal_operation_status running = false
is_terminal_operation_status _ = true

abbrev pub is_finished : StepStatus → Bool
is_finished StepStatus.pending = false
is_finished StepStatus.running = false
is_finished _ = true

abbrev pub equals_number : Option ℕ → ℕ → Bool
equals_number none n = false
equals_number (some m) n = m == n

abbrev pub decision_agrees : Option ℕ → ℕ → Bool
decision_agrees none revision = true
decision_agrees (some decision) revision = decision == revision

unfoldable pub is_operation_decision_current : Operation → Option Revisions → Bool
is_operation_decision_current operation none = false
is_operation_decision_current operation (some pool) =
    equals_number operation.policy_revision pool.policy_revision
    && decision_agrees operation.decision_revision pool.decision_revision

abbrev pub is_present {ℓ} : {A : Type ℓ} → Option A → Bool
is_present none = false
is_present (some a) = true

-- `resourceType === "endpoint_pool" && resourceId && policyRevision !== null`
abbrev pub follows_pool : Operation → Bool
follows_pool operation =
    str_eq operation.resource_type "endpoint_pool"
    && is_present operation.resource_id
    && is_present operation.policy_revision

abbrev pub is_stale : Operation → Database → Bool
is_stale operation db =
    follows_pool operation && not (is_operation_decision_current operation db.pool)

abbrev pub is_active_row : Option Operation → Bool
is_active_row none = false
is_active_row (some operation) = not (is_terminal_operation_status operation.status)

-- `lockActiveOperation`
unfoldable pub lock_active_operation : Database → Bool
lock_active_operation db = is_active_row db.operation

abbrev pub find_step : String → List Step → Option Step
find_step id [] = none
find_step id (s ∷ rest) = let later = find_step id rest in if str_eq s.id id then some s else later

-- `update(operationSteps).set(change).where(which)`
abbrev pub update_steps : (Step → Bool) → (Step → Step) → List Step → List Step
update_steps which change [] = []
update_steps which change (s ∷ rest) =
    (if which s then change s else s) ∷ update_steps which change rest

abbrev pub is_open : Step → Bool
is_open s = not (is_finished s.status)

abbrev pub has_id : String → Step → Bool
has_id id s = str_eq s.id id

abbrev pub is_open_with : String → Step → Bool
is_open_with id s = has_id id s && is_open s

abbrev pub skip_step : Option String → ℕ → Step → Step
skip_step error_code now s = record s {
  status = skipped;
  error_code = or_old error_code;
  finished_at = some now;
}
  where
    or_old : Option String → Option String
    or_old none = s.error_code
    or_old (some code) = some code

abbrev pub start_time : Option ℕ → ℕ → Option ℕ
start_time none now = some now
start_time (some at) now = some at

abbrev pub run_step : ℕ → ℕ → Step → Step
run_step attempts now s = record s {
  status = StepStatus.running;
  attempts = attempts + 1;
  started_at = start_time s.started_at now;
}

-- `prepareStep`: the step is running where the result is true.
unfoldable pub prepare_step : Operation → Step → (now : ℕ) → Database → Database × Bool
prepare_step operation step now db =
    if is_stale operation db || not (lock_active_operation db) then (db, false) else (
      record db {
        steps = update_steps (is_open_with step.id) (run_step step.attempts now) db.steps;
      },
      any (is_open_with step.id) db.steps,
    )

abbrev pub set_status : OperationStatus → ℕ → Option Operation → Option Operation
set_status status now none = none
set_status status now (some operation) =
    some (record operation { status = status; finished_at = some now })

-- An end other than being superseded.
abbrev pub is_other_end : OperationStatus → Bool
is_other_end superseded = false
is_other_end status = is_terminal_operation_status status

-- What is kept from being superseded: nothing at all, and an operation with another end.
abbrev pub has_other_end : Option Operation → Bool
has_other_end none = true
has_other_end (some operation) = is_other_end operation.status

-- The open steps are skipped and the operation ends.
abbrev pub supersede_all : ℕ → Database → Database
supersede_all now db = record db {
  steps = update_steps is_open (skip_step none now) db.steps;
  operation = set_status superseded now db.operation;
}

unfoldable pub supersede_operation : (now : ℕ) → Database → Database
supersede_operation now db = if has_other_end db.operation then db else supersede_all now db

abbrev pub claim_row : ℕ → Operation → Operation
claim_row now operation = record operation {
  status = running;
  started_at = start_time operation.started_at now;
}

abbrev pub claim : ℕ → Option Operation → Option Operation
claim now none = none
claim now (some operation) =
    if is_terminal_operation_status operation.status
    then some operation
    else some (claim_row now operation)
