-- ===== src/Operations/Conclusion.antt =====
-- What a concluded operation says of its steps.
use master_dns.Common.{
  ℕ, suc, ◌≡◌, refl, ap, ◌∙◌, Bool, true, false, not, Option, none, some, String, List, [], ◌∷◌,
  inl, inr, Bool-cases, if◌then◌else◌, arith, All, ==_iff, ◌==◌,
}
use master_dns.Common.Text.{str_eq}
use master_dns.Operations.Errors.{ProviderError, ProviderErrorCode}
use master_dns.Operations.Types.{
  OperationStatus, succeeded, failed, partial, StepStatus, Step, Operation, Database,
}
use master_dns.Operations.Tables.{
  is_finished, find_step, is_stale, lock_active_operation, claim, is_terminal_operation_status,
}
use master_dns.Operations.Transaction.{Execution, execute_step}
use master_dns.Operations.Remote.{Adapter, Language}
use master_dns.Operations.Execute.{Surroundings}
use master_dns.Operations.Process.{Job, is_settled, Ending, all_done, stopped, thrown}
use master_dns.Operations.Finalize.{
  is_failed, count_failed, count_settled, final_status, Verdict, concluded, finalize_operation,
  after_steps, process_row, process_locked,
}
use master_dns.Operations.Finishing.{done_row}
use master_dns.Operations.Outcome.{Moves}
use master_dns.Operations.Execution.{execute_step-Moves}
use master_dns.Operations.Pass.{SettledAreDone, AreDone, Ends, run_steps-Ends}

-- The step with the id succeeded or was skipped, or there is none.
abbrev pub settled_row : Option Step → Bool
settled_row none = true
settled_row (some s) = is_settled s.status

abbrev pub AreSettled : List Step → List Step → Type 0
AreSettled steps after = All (λ s. settled_row (find_step s.id after) ≡ true) steps

row_settled :
    (status : StepStatus)
    → is_finished status ≡ true
    → is_failed status ≡ false
    → is_settled status ≡ true
row_settled status f g = ground arith

no_failure : {n : ℕ} → suc n ≡ 0 → ⊥
no_failure e = omega arith

none_failed :
    (rows : List Step) (id : String)
    → count_failed rows ≡ 0
    → done_row (find_step id rows) ≡ true
    → settled_row (find_step id rows) ≡ true
none_failed [] id z d = refl
none_failed (r ∷ rows) id z d = elim (Bool-cases (is_failed r.status)) [
  | inl f ↦ absurd (no_failure (rw f at z))
  | inr f ↦ elim (Bool-cases (str_eq r.id id)) [
    | inl e ↦ rw e (row_settled r.status (rw e at d) f)
    | inr e ↦ rw e (none_failed rows id (rw f at z) (rw e at d))
  ]
]

all_settled :
    (steps rows : List Step) → count_failed rows ≡ 0 → AreDone steps rows → AreSettled steps rows
all_settled [] rows z d = tt
all_settled (s ∷ steps) rows z (own, d) = (none_failed rows s.id z own, all_settled steps rows z d)

abbrev verdict_status : OperationStatus → Option Verdict → OperationStatus
verdict_status default (some (concluded status settled failures)) = status
verdict_status default _ = default

first_branch :
    (a b : Bool) → (if a then succeeded else if b then failed else partial) ≡ succeeded → a ≡ true
first_branch true b e = refl
first_branch false true e = cc
first_branch false false e = cc

-- `final_status` reads "succeeded" off the absence of failed steps.
succeeded_none_failed : (rows : List Step) → final_status rows ≡ succeeded → count_failed rows ≡ 0
unfolding final_status
succeeded_none_failed rows e =
    (==_iff (count_failed rows) 0).0 (first_branch _ (count_settled rows == 0) e)

-- The steps' ids are a primary key.
abbrev pub HasKeys : List Step → Type 0
HasKeys steps = All (λ s. find_step s.id steps ≡ some s) steps

settled_done :
    (steps rows : List Step)
    → All (λ s. find_step s.id rows ≡ some s) steps
    → SettledAreDone steps rows
settled_done [] rows h = tt
settled_done (s ∷ steps) rows (own, h) =
    ((λ t. ap done_row own ∙ finished s.status t), settled_done steps rows h)
  where
    finished : (status : StepStatus) → is_settled status ≡ true → is_finished status ≡ true
    finished status t = ground arith

module _ {R : Type 0} (code_text : ProviderErrorCode → String)
    (is_lock_failure : ProviderError → Bool) (job : Job) (is_deleting : String → Bool)
    (execute : Operation → Step → Database → R → Execution R)
    (moves : (operation : Operation) (step : Step) (db : Database) (remote : R)
      → Moves db.steps step.id (execute operation step db remote)) where
  -- What a verdict tells of the steps.
  abbrev Tells : List Step → (R × Database) × Option Verdict → Type 0
  Tells steps run =
      (status : OperationStatus) (settled failures : ℕ)
      → run.1 ≡ some (concluded status settled failures)
      → AreDone steps run.0.1.steps × (status ≡ succeeded → AreSettled steps run.0.1.steps)

  Tells-if :
      (steps : List Step) (test : Bool) (one other : (R × Database) × Option Verdict)
      → Tells steps one
      → Tells steps other
      → Tells steps (if test then one else other)
  Tells-if steps true one other p q = p
  Tells-if steps false one other p q = q

  finalize-Tells :
      (steps : List Step) (operation : Operation) (db : Database) (remote : R)
      → AreDone steps db.steps
      → Tells steps (
          after_steps code_text is_lock_failure job is_deleting execute operation
            ((remote, db), all_done))
  unfolding finalize_operation
  finalize-Tells steps operation db remote done =
      elim (Bool-cases (not (lock_active_operation db))) [
        | inl e ↦ rw e (λ status settled failures t. cc)
        | inr e ↦ elim (Bool-cases (is_stale operation db)) [
          | inl f ↦ rw (e, f) (λ status settled failures t. cc)
          | inr f ↦
              rw (e, f)
                (λ status settled failures t. (
                  done,
                  λ s.
                      all_settled steps db.steps
                        (succeeded_none_failed db.steps (ap (verdict_status status) t ∙ s)) done,
                ))
        ]
      ]

  after_steps-Tells :
      (before steps : List Step) (operation : Operation) (run : (R × Database) × Ending)
      → Ends before steps run
      → Tells steps (after_steps code_text is_lock_failure job is_deleting execute operation run)
  after_steps-Tells before steps operation ((remote, db), all_done) ends =
      finalize-Tells steps operation db remote (ends refl).1
  after_steps-Tells before steps operation ((remote, db), stopped) ends =
      λ status settled failures e. cc
  after_steps-Tells before steps operation ((remote, db), thrown x) ends =
      λ status settled failures e. cc

  process_row-Tells :
      (row : Option Operation) (db : Database) (remote : R)
      → HasKeys db.steps
      → Tells db.steps (process_row code_text is_lock_failure job is_deleting execute row db remote)
  process_row-Tells none db remote keys = λ status settled failures e. cc
  process_row-Tells (some operation) db remote keys =
      let claimed = record db { operation = claim job.now db.operation } in
      Tells-if db.steps (is_terminal_operation_status operation.status) _ _
        (λ status settled failures e. cc)
        (Tells-if db.steps (is_stale operation db) _ _ (λ status settled failures e. cc)
          (after_steps-Tells db.steps db.steps operation _ (
            run_steps-Ends code_text is_lock_failure job (execute operation) (moves operation)
              db.steps claimed remote (settled_done db.steps db.steps keys))))

  process_locked-Tells :
      (db : Database) (remote : R)
      → HasKeys db.steps
      → Tells db.steps (process_locked code_text is_lock_failure job is_deleting execute db remote)
  unfolding process_locked
  process_locked-Tells db remote keys = process_row-Tells db.operation db remote keys

module _ {R : Type 0} (adapter : Adapter R) (language : Language) (fuel : ℕ) (is_cloudflare : Bool)
    (around : Surroundings) (fresh : String) (code_text : ProviderErrorCode → String)
    (is_lock_failure : ProviderError → Bool) (job : Job) where
  -- The job's work on a step.
  abbrev pub execute_with : Operation → Step → Database → R → Execution R
  execute_with operation step db remote =
      execute_step adapter language fuel is_cloudflare around operation job.now fresh step.id db
        remote

  abbrev pub process_with : Database → R → (R × Database) × Option Verdict
  process_with db remote =
      process_locked code_text is_lock_failure job around.is_deleting execute_with db remote

  -- Where a job concludes an operation as succeeded, each of the steps that it started from has
  -- succeeded or been skipped: none is open or failed. The ids of the steps must be distinct, and
  -- the job must hold the operation's lease, so that no other writes to the tables between its
  -- transactions.
  pub process_with-AreSettled :
      (db : Database) (remote : R)
      → HasKeys db.steps
      → (settled failures : ℕ)
      → (process_with db remote).1 ≡ some (concluded succeeded settled failures)
      → AreSettled db.steps (process_with db remote).0.1.steps
  process_with-AreSettled db remote keys settled failures e =
      (process_locked-Tells code_text is_lock_failure job around.is_deleting execute_with
          (λ operation step db remote.
            execute_step-Moves adapter language fuel is_cloudflare around operation job.now fresh
              step.id db remote)
          db remote keys succeeded settled failures e).1
        refl
