-- ===== src/Operations/Lifecycle.antt =====
-- The transactions of any number of jobs on one operation, and its cancellation, in any order.
use master_dns.Common.{
  ℕ, ◌≡◌, refl, ap, ◌∙◌, subst, Bool, true, false, Option, none, some, String, inl, inr, ◌⊎◌,
  Bool-cases, Result, ok, ok-injective,
}
use mathlib.Core.Option.{some-injective}
use master_dns.Operations.Errors.{ProviderError, ProviderErrorCode}
use master_dns.Operations.Types.{
  OperationStatus, pending, running, succeeded, partial, failed, superseded, Step, Operation,
  Database, ProviderRecord,
}
use master_dns.Operations.Tables.{
  is_terminal_operation_status, is_stale, lock_active_operation, is_active_row, prepare_step,
  supersede_operation, has_other_end, is_other_end, set_status, claim,
}
use master_dns.Operations.Cancel.{cancel_row, cancel_operation}
use master_dns.Incidents.Terminating.{is_cancellable}
use master_dns.Operations.Remote.{Adapter, Language}
use master_dns.Operations.Execute.{Surroundings, publishes_released}
use master_dns.Operations.Transaction.{run_transaction}
use master_dns.Operations.Process.{Job, record_failure}
use master_dns.Operations.Finalize.{finalize_operation}

abbrev pub row_status : Option Operation → Option OperationStatus
row_status none = none
row_status (some operation) = some operation.status

-- The operation has ended with the status.
abbrev pub HasEnded : OperationStatus → Database → Type 0
HasEnded status db =
    (row_status db.operation ≡ some status) × (is_terminal_operation_status status ≡ true)

ended_row-closed :
    (status : OperationStatus) (row : Option Operation)
    → row_status row ≡ some status
    → is_terminal_operation_status status ≡ true
    → is_active_row row ≡ false
ended_row-closed status none e t = refl
ended_row-closed status (some operation) e t =
    rw (ap is_terminal_operation_status (some-injective _ _ e) ∙ t) refl

ended-closed :
    (status : OperationStatus) (db : Database)
    → HasEnded status db
    → lock_active_operation db ≡ false
unfolding lock_active_operation
ended-closed status db (e, t) = ended_row-closed status db.operation e t

returned_end :
    (status : OperationStatus) (db after : Database) (applied : Bool)
    → HasEnded status db
    → ◌≡◌ {A = Result ProviderError (Database × Bool)} (ok (db, false)) (ok (after, applied))
    → HasEnded status after × (applied ≡ false)
returned_end status db after applied ended h =
    subst (λ result. HasEnded status result.0 × (result.1 ≡ false))
      (ok-injective (db, false) (after, applied) h) (ended, refl)

module _ {R : Type 0} (adapter : Adapter R) (language : Language) (fuel : ℕ) (is_cloudflare : Bool)
    (around : Surroundings) (operation : Operation) (now : ℕ) (fresh : String) where
  -- On an operation that has ended a step's transaction asks nothing of the provider, and leaves
  -- the end as it is.
  pub run_transaction-ended :
      (status : OperationStatus) (step : Step) (before : Option ProviderRecord) (db : Database)
      (remote : R)
      → HasEnded status db
      → let run =
          run_transaction adapter language fuel is_cloudflare around operation now fresh step before
            db remote in
        (run.0 ≡ remote)
        × ((after : Database) (applied : Bool)
            → run.1 ≡ ok (after, applied)
            → HasEnded status after × (applied ≡ false))
  unfolding run_transaction
  run_transaction-ended status step before db remote ended =
      elim (Bool-cases (publishes_released around step.action step.input.input_record)) [
        | inl e ↦ rw e (refl, λ after applied h. cc)
        | inr e ↦ elim (Bool-cases (is_stale operation db)) [
          | inl f ↦ rw (e, f) (refl, λ after applied h. returned_end status _ after applied ended h)
          | inr f ↦
              rw (e, f, ended-closed status db ended)
                (refl, λ after applied h. returned_end status db after applied ended h)
        ]
      ]

claim_status :
    (now : ℕ) (status : OperationStatus) (row : Option Operation)
    → row_status row ≡ some status
    → is_terminal_operation_status status ≡ true
    → row_status (claim now row) ≡ some status
claim_status now status none e t = e
claim_status now status (some operation) e t =
    rw (ap is_terminal_operation_status (some-injective _ _ e) ∙ t) e

prepare_step-ended :
    (status : OperationStatus) (operation : Operation) (step : Step) (now : ℕ) (db : Database)
    → HasEnded status db
    → HasEnded status (prepare_step operation step now db).0
unfolding prepare_step
prepare_step-ended status operation step now db ended = elim (Bool-cases (is_stale operation db)) [
  | inl e ↦ rw e ended
  | inr e ↦ rw (e, ended-closed status db ended) ended
]

record_failure-ended :
    (code_text : ProviderErrorCode → String) (status : OperationStatus) (job : Job) (step : Step)
    (e : ProviderError) (final : Bool) (db : Database)
    → HasEnded status db
    → HasEnded status (record_failure code_text job step e final db).0
unfolding record_failure
record_failure-ended code_text status job step e final db ended =
    rw (ended-closed status db ended) ended

finalize_operation-ended :
    (is_deleting : String → Bool) (status : OperationStatus) (operation : Operation) (now : ℕ)
    (db : Database)
    → HasEnded status db
    → HasEnded status (finalize_operation is_deleting operation now db).0
unfolding finalize_operation
finalize_operation-ended is_deleting status operation now db ended =
    rw (ended-closed status db ended) ended

only_superseded :
    (status : OperationStatus)
    → is_terminal_operation_status status ≡ true
    → is_other_end status ≡ false
    → superseded ≡ status
unfolding is_terminal_operation_status
only_superseded pending t o = cc
only_superseded running t o = cc
only_superseded succeeded t o = cc
only_superseded partial t o = cc
only_superseded failed t o = cc
only_superseded superseded t o = refl

-- An operation that is superseded again is as it was; one with another end is left alone.
superseded_row :
    (now : ℕ) (status : OperationStatus) (row : Option Operation)
    → row_status row ≡ some status
    → is_terminal_operation_status status ≡ true
    → has_other_end row ≡ false
    → row_status (set_status superseded now row) ≡ some status
superseded_row now status none e t o = e
superseded_row now status (some operation) e t o =
    let same = some-injective _ _ e in
    ap some (only_superseded operation.status (ap is_terminal_operation_status same ∙ t) o ∙ same)

supersede_operation-ended :
    (status : OperationStatus) (now : ℕ) (db : Database)
    → HasEnded status db
    → HasEnded status (supersede_operation now db)
unfolding supersede_operation
supersede_operation-ended status now db (e, t) = elim (Bool-cases (has_other_end db.operation)) [
  | inl o ↦ rw o (e, t)
  | inr o ↦ rw o (superseded_row now status db.operation e t o, t)
]

-- The end that follows an end: the same, or the supersession of an operation that did not succeed.
abbrev pub Follows : OperationStatus → OperationStatus → Type 0
Follows before after =
    (after ≡ before) ⊎ ((after ≡ superseded) × ((before ≡ partial) ⊎ (before ≡ failed)))

abbrev pub EndsAfter : OperationStatus → Database → Type 0
EndsAfter before db = (status : OperationStatus) × HasEnded status db × Follows before status

Follows-trans : (a b c : OperationStatus) → Follows a b → Follows b c → Follows a c
Follows-trans a b c (inl p) (inl q) = inl (q ∙ p)
Follows-trans a b c (inl p) (inr (q, from)) =
    inr (q, subst (λ x. (x ≡ partial) ⊎ (x ≡ failed)) p from)
Follows-trans a b c (inr (p, from)) (inl q) = inr (q ∙ p, from)
Follows-trans a b c (inr (p, from)) (inr (q, again)) = inr (q, from)

kept_row :
    (status : OperationStatus) (row : Option Operation)
    → row_status row ≡ some status
    → is_cancellable status ≡ false
    → row_status (cancel_row row) ≡ some status
kept_row status none e c = e
kept_row status (some operation) e c = rw (ap is_cancellable (some-injective _ _ e) ∙ c) e

superseded_by :
    (status : OperationStatus) (row : Option Operation)
    → row_status row ≡ some status
    → is_cancellable status ≡ true
    → row_status (cancel_row row) ≡ some superseded
superseded_by status none e c = cc
superseded_by status (some operation) e c = rw (ap is_cancellable (some-injective _ _ e) ∙ c) refl

cancel_operation-ended :
    (status : OperationStatus) (now : ℕ) (db : Database)
    → HasEnded status db
    → EndsAfter status (cancel_operation now db)
unfolding is_terminal_operation_status
cancel_operation-ended pending now db (e, t) = cc
cancel_operation-ended running now db (e, t) = cc
cancel_operation-ended succeeded now db (e, t) =
    (succeeded, (kept_row succeeded db.operation e refl, refl), inl refl)
cancel_operation-ended superseded now db (e, t) =
    (superseded, (kept_row superseded db.operation e refl, refl), inl refl)
cancel_operation-ended partial now db (e, t) =
    (superseded, (superseded_by partial db.operation e refl, refl), inr (refl, inl refl))
cancel_operation-ended failed now db (e, t) =
    (superseded, (superseded_by failed db.operation e refl, refl), inr (refl, inr refl))

still : (status : OperationStatus) (db : Database) → HasEnded status db → EndsAfter status db
still status db h = (status, h, inl refl)

module _ {R : Type 0} (adapter : Adapter R) (language : Language) (fuel : ℕ) (is_cloudflare : Bool)
    (code_text : ProviderErrorCode → String) where
  -- One committed transaction, with any arguments that a job may have read before.
  pub data Transaction : Database → Database → Type 0 where
    claims :
        (now : ℕ) (db : Database)
        → Transaction db (record db { operation = claim now db.operation })
    prepares :
        (operation : Operation) (step : Step) (now : ℕ) (db : Database)
        → Transaction db (prepare_step operation step now db).0
    executes :
        (around : Surroundings) (operation : Operation) (now : ℕ) (fresh : String) (step : Step)
        (before : Option ProviderRecord) (db after : Database) (remote : R) (applied : Bool)
        → (run_transaction adapter language fuel is_cloudflare around operation now fresh step
            before db remote).1
          ≡ ok (after, applied)
        → Transaction db after
    records :
        (job : Job) (step : Step) (e : ProviderError) (final : Bool) (db : Database)
        → Transaction db (record_failure code_text job step e final db).0
    supersedes : (now : ℕ) (db : Database) → Transaction db (supersede_operation now db)
    finalizes :
        (is_deleting : String → Bool) (operation : Operation) (now : ℕ) (db : Database)
        → Transaction db (finalize_operation is_deleting operation now db).0
    cancels : (now : ℕ) (db : Database) → Transaction db (cancel_operation now db)

  pub data Reach : Database → Database → Type 0 where
    start : (db : Database) → Reach db db
    next :
        (db middle after : Database) → Transaction db middle → Reach middle after → Reach db after

  Transaction-ended :
      (status : OperationStatus) (db after : Database)
      → Transaction db after
      → HasEnded status db
      → EndsAfter status after
  Transaction-ended status db after (claims now d) (e, t) =
      still status (record d { operation = claim now d.operation })
        (claim_status now status d.operation e t, t)
  Transaction-ended status db after (prepares operation step now d) h =
      still status (prepare_step operation step now d).0
        (prepare_step-ended status operation step now d h)
  Transaction-ended status db after
        (executes around operation now fresh step before d a remote applied e) h =
      still status a
        ((run_transaction-ended adapter language fuel is_cloudflare around operation now fresh
            status step before d remote h).1
          a applied e).0
  Transaction-ended status db after (records job step e final d) h =
      still status (record_failure code_text job step e final d).0
        (record_failure-ended code_text status job step e final d h)
  Transaction-ended status db after (supersedes now d) h =
      still status (supersede_operation now d) (supersede_operation-ended status now d h)
  Transaction-ended status db after (finalizes is_deleting operation now d) h =
      still status (finalize_operation is_deleting operation now d).0
        (finalize_operation-ended is_deleting status operation now d h)
  Transaction-ended status db after (cancels now d) h = cancel_operation-ended status now d h

  -- An operation that has succeeded or is superseded keeps that status, and one that has ended as
  -- partial or failed keeps it or is superseded, through any sequence of transactions of any number of
  -- its jobs, each with whatever it read before, and of cancellations as by the termination of an
  -- incident. The other writers, which put a partial or failed operation back to pending, are left
  -- out: the retry by a user, and that by the publication of an address.
  pub Reach-ended :
      (status : OperationStatus) (db after : Database)
      → Reach db after
      → HasEnded status db
      → EndsAfter status after
  Reach-ended status db after (start d) h = still status d h
  Reach-ended status db after (next d middle a step rest) h =
      let (between, ended, follows) = Transaction-ended status d middle step h in
      let (last, done, later) = Reach-ended between middle a rest ended in
      (last, done, Follows-trans status between last follows later)
