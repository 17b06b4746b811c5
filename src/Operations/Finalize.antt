-- ===== src/Operations/Finalize.antt =====
-- `finalizeOperation` and the pass of one job over an operation. The pool's new policy version that
-- a deleted binding leaves is not modelled.
use master_dns.Common.{
  ℕ, Bool, true, false, not, ◌&&◌, Option, none, some, String, List, [], ◌∷◌, filter, length, any,
  all, ◌==◌, if◌then◌else◌,
}
use master_dns.Common.Text.{str_eq, includes}
use master_dns.Operations.Errors.{ProviderError, ProviderErrorCode}
use master_dns.Operations.Types.{
  OperationStatus, succeeded, partial, failed, StepStatus, BindingState, healthy, switching, Step,
  Operation, Binding, Database,
}
use master_dns.Operations.Tables.{
  is_stale, lock_active_operation, supersede_all, supersede_operation, claim,
  is_terminal_operation_status,
}
use master_dns.Operations.Transaction.{Execution}
use master_dns.Operations.Process.{Job, is_settled, Ending, all_done, stopped, thrown, run_steps}

abbrev pub is_failed : StepStatus → Bool
is_failed StepStatus.failed = true
is_failed _ = false

abbrev pub count_settled : List Step → ℕ
count_settled steps = length (filter (λ s. is_settled s.status) steps)

abbrev pub count_failed : List Step → ℕ
count_failed steps = length (filter (λ s. is_failed s.status) steps)

unfoldable pub final_status : List Step → OperationStatus
final_status steps =
    if count_failed steps == 0
    then succeeded
    else if count_settled steps == 0
    then failed
    else partial

abbrev pub end_row : List Step → ℕ → Option Operation → Option Operation
end_row steps now none = none
end_row steps now (some operation) = some (record operation {
  status = final_status steps;
  finished_at = some now;
  error_code =
      if count_failed steps == 0 then operation.error_code else some "one_or_more_steps_failed";
})

abbrev pub is_about : String → Step → Bool
is_about binding s = names s.input.binding_id
  where
    names : Option String → Bool
    names none = false
    names (some id) = str_eq id binding

abbrev pub binding_ids : List String → List Step → List String
binding_ids seen [] = []
binding_ids seen (s ∷ rest) =
    add s.input.binding_id (binding_ids seen rest) (λ id. binding_ids (id ∷ seen) rest)
  where
    add : Option String → List String → (String → List String) → List String
    add none others more = others
    add (some id) others more = if includes seen id then others else id ∷ more id

abbrev pub binding_state : List Step → BindingState
binding_state related =
    if any (λ s. is_failed s.status) related
    then BindingState.failed
    else if all (λ s. is_settled s.status) related
    then healthy
    else switching

abbrev pub is_healthy : BindingState → Bool
is_healthy healthy = true
is_healthy _ = false

abbrev pub set_binding : String → BindingState → List Binding → List Binding
set_binding id state [] = []
set_binding id state (b ∷ rest) =
    (if str_eq b.id id then record b { state = state } else b) ∷ set_binding id state rest

abbrev pub wants_deletion : List Step → Bool
wants_deletion related = any (λ s. s.input.delete_binding) related

-- A binding that another operation deletes is left alone.
unfoldable pub settle_binding :
    (is_deleting : String → Bool) → List Step → List Binding → String → List Binding
settle_binding is_deleting steps bindings id =
    let related = filter (is_about id) steps in
    let state = binding_state related in
    if is_deleting id && not (wants_deletion related)
    then bindings
    else if is_healthy state && wants_deletion related
    then filter (λ b. not (str_eq b.id id)) bindings
    else set_binding id state bindings

abbrev pub settle_bindings :
    (is_deleting : String → Bool) → List Step → List Binding → List String → List Binding
settle_bindings is_deleting steps bindings [] = bindings
settle_bindings is_deleting steps bindings (id ∷ ids) =
    settle_bindings is_deleting steps (settle_binding is_deleting steps bindings id) ids

abbrev pub end_operation : (is_deleting : String → Bool) → ℕ → Database → Database
end_operation is_deleting now db = record db {
  operation = end_row db.steps now db.operation;
  bindings = settle_bindings is_deleting db.steps db.bindings (binding_ids [] db.steps);
}

-- What the worker tells after its transaction: nothing, or the end with the two counts.
pub data Verdict : Type 0 where
  superseded_one : Verdict
  concluded : OperationStatus → (settled failed : ℕ) → Verdict

unfoldable pub finalize_operation :
    (is_deleting : String → Bool) → Operation → (now : ℕ) → Database → Database × Verdict
finalize_operation is_deleting operation now db =
    if not (lock_active_operation db)
    then (db, superseded_one)
    else if is_stale operation db
    then (supersede_all now db, superseded_one)
    else (
      end_operation is_deleting now db,
      concluded (final_status db.steps) (count_settled db.steps) (count_failed db.steps),
    )

-- `processLocked`: what remains, and `none` where an error goes back to the queue.
module _ {R : Type 0} (code_text : ProviderErrorCode → String)
    (is_lock_failure : ProviderError → Bool) (job : Job) (is_deleting : String → Bool)
    (execute : Operation → Step → Database → R → Execution R) where
  abbrev pub after_steps : Operation → (R × Database) × Ending → (R × Database) × Option Verdict
  after_steps operation ((remote, db), all_done) =
      let (after, verdict) = finalize_operation is_deleting operation job.now db in
      ((remote, after), some verdict)
  after_steps operation ((remote, db), stopped) = ((remote, db), some superseded_one)
  after_steps operation ((remote, db), thrown e) = ((remote, db), none)

  abbrev pub process_active : Operation → Database → R → (R × Database) × Option Verdict
  process_active operation db remote =
      if is_stale operation db
      then ((remote, supersede_operation job.now db), some superseded_one)
      else after_steps operation (
          run_steps code_text is_lock_failure job (execute operation) db.steps
            (record db { operation = claim job.now db.operation }) remote)

  abbrev pub process_row : Option Operation → Database → R → (R × Database) × Option Verdict
  process_row none db remote = ((remote, db), some superseded_one)
  process_row (some operation) db remote =
      if is_terminal_operation_status operation.status
      then ((remote, db), some superseded_one)
      else process_active operation db remote

  unfoldable pub process_locked : Database → R → (R × Database) × Option Verdict
  process_locked db remote = process_row db.operation db remote
