-- ===== src/Operations/Process.antt =====
-- `processLocked`: the loop over an operation's steps, and what a step's failure records.
use master_dns.Common.{
  ℕ, ◌+◌, ◌*◌, ◌^◌, Bool, true, false, not, ◌&&◌, ◌||◌, Option, none, some, String, List, [], ◌∷◌,
  any, leb, err, ok, if◌then◌else◌,
}
use master_dns.Common.Text.{str_eq}
use master_dns.Operations.Errors.{ProviderError, ProviderErrorCode, is_denial}
use master_dns.Operations.Types.{
  AccountStatus, disabled, error, StepStatus, failed, Step, Account, Database,
}
use master_dns.Operations.Tables.{
  update_steps, is_open_with, lock_active_operation, supersede_operation,
}
use master_dns.Operations.Transaction.{Execution}

abbrev pub is_disabled : Option AccountStatus → Bool
is_disabled (some disabled) = true
is_disabled _ = false

unfoldable pub should_finalize_operation_step_failure :
    (retryable : Bool)
    → (attempts_made max_attempts : ℕ) → Option AccountStatus
    → (lock_failure : Bool) → Bool
should_finalize_operation_step_failure retryable attempts_made max_attempts status lock_failure =
    if is_disabled status || lock_failure
    then false
    else not retryable || leb max_attempts (attempts_made + 1)

-- A job of the queue, on its way through one operation.
pub record Job : Type 0 where
  pub attempts_made : ℕ
  pub max_attempts : ℕ
  pub now : ℕ

abbrev pub account_status : String → List Account → Option AccountStatus
account_status id [] = none
account_status id (a ∷ rest) =
    let later = account_status id rest in if str_eq a.id id then some a.status else later

abbrev pub retry_delay : Job → Option ℕ → ℕ
retry_delay job none = 1000 * 2 ^ job.attempts_made
retry_delay job (some ms) = ms

abbrev pub fail_step : Job → ProviderError → Bool → String → ℕ → Step → Step
fail_step job e final code attempts s = record s {
  status = if final then failed else StepStatus.pending;
  attempts = attempts + 1;
  error_code = some code;
  next_retry_at = if final then none else some (job.now + retry_delay job e.retry_after_ms);
  finished_at = if final then some job.now else none;
}

abbrev pub flag_account : ProviderErrorCode → String → List Account → List Account
flag_account code id [] = []
flag_account code id (a ∷ rest) =
    (if str_eq a.id id && not (is_disabled (some a.status))
      then record a { status = error; error_code = some code }
      else a)
    ∷ flag_account code id rest

module _ (code_text : ProviderErrorCode → String) where
  -- The result is whether the failure was recorded.
  unfoldable pub record_failure :
      Job → (step : Step) → ProviderError → (final : Bool) → Database → Database × Bool
  record_failure job step e final db =
      if lock_active_operation db && any (is_open_with step.id) db.steps
      then (
        record db {
          steps =
              update_steps (is_open_with step.id)
                (fail_step job e final (code_text e.code) step.attempts) db.steps;
          accounts =
              if is_denial e.code
              then flag_account e.code step.account_id db.accounts
              else db.accounts;
        },
        true,
      )
      else (db, false)

-- How a pass over the steps ends: at the end of the list, early, or with an error for the queue.
pub data Ending : Type 0 where
  all_done stopped : Ending
  thrown : ProviderError → Ending

-- `succeeded` or `skipped`
abbrev pub is_settled : StepStatus → Bool
is_settled StepStatus.succeeded = true
is_settled StepStatus.skipped = true
is_settled _ = false

module _ {R : Type 0} (code_text : ProviderErrorCode → String)
    (is_lock_failure : ProviderError → Bool) (job : Job)
    (execute : Step → Database → R → Execution R) where
  abbrev pub is_final : Step → ProviderError → Database → Bool
  is_final step e db =
      should_finalize_operation_step_failure e.retryable job.attempts_made job.max_attempts
        (account_status step.account_id db.accounts) (is_lock_failure e)

  -- After a failure: `go_on` is the rest of the list.
  abbrev pub after_failure :
      ProviderError
      → (final : Bool) → Database × Bool
      → R
      → (Database → R → (R × Database) × Ending)
      → (R × Database) × Ending
  after_failure e final (db, false) remote go_on = ((remote, db), stopped)
  after_failure e false (db, true) remote go_on = ((remote, db), thrown e)
  after_failure e true (db, true) remote go_on = go_on db remote

  abbrev pub after_step :
      Step → Execution R → (Database → R → (R × Database) × Ending) → (R × Database) × Ending
  after_step step ((remote, db), ok true) go_on = go_on db remote
  after_step step ((remote, db), ok false) go_on =
      ((remote, supersede_operation job.now db), stopped)
  after_step step ((remote, db), err e) go_on =
      let final = is_final step e db in
      after_failure e final (record_failure code_text job step e final db) remote go_on

  -- `steps` is as read before the loop.
  unfoldable pub run_steps : (steps : List Step) → Database → R → (R × Database) × Ending
  run_steps [] db remote = ((remote, db), all_done)
  run_steps (step ∷ rest) db remote =
      if is_settled step.status
      then run_steps rest db remote
      else after_step step (execute step db remote) (λ db remote. run_steps rest db remote)
