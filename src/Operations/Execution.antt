-- ===== src/Operations/Execution.antt =====
-- What a step's execution keeps and finishes, by its branches.
use master_dns.Common.{
  ℕ, ◌≡◌, refl, ap, ◌∙◌, Bool, true, false, not, ◌&&◌, ◌||◌, Option, none, some, String, List, inl,
  inr, Bool-cases, if◌then◌else◌, Result, err, ok, ok-injective,
}
use master_dns.Common.Text.{str_eq}
use master_dns.Operations.Errors.{ProviderError, Call}
use master_dns.Operations.Types.{Step, Operation, Database, ProviderRecord}
use master_dns.Operations.Tables.{
  is_finished, is_open_with, has_id, find_step, run_step, prepare_step, is_stale,
  lock_active_operation,
}
use master_dns.Operations.Remote.{Adapter, Language, apply_action}
use master_dns.Operations.Execute.{
  Surroundings, write_back, write_row, publishes_released, is_running, binding_error, keep_old_ttl,
}
use master_dns.Operations.Transaction.{
  write_step, unless_managed, past_cloud_check, past_binding, run_transaction, keep_before, commit,
  execute_read, execute_prepared, execute_row, execute_step,
}
use master_dns.Operations.Finishing.{done_row, update_steps-keeps, open-keeps}
use master_dns.Operations.Outcome.{
  Holds, Holds-return, Holds-throw, Holds-bind, Holds-if, Keeps, Advances, Moves, Moves-as,
  find_step-id, skip-Keeps, skip-IsDone, finish-Keeps, finish-IsDone,
}

module _ {R : Type 0} (adapter : Adapter R) (language : Language) (fuel : ℕ) (is_cloudflare : Bool)
    (around : Surroundings) (operation : Operation) (now : ℕ) (fresh : String) where
  write_back-Advances :
      (step : Step) (db : Database) (left : Option ProviderRecord)
      → Advances db.steps step.id (write_back fresh step now db left, true)
  write_back-Advances step db none = (
    finish-Keeps step.dns_record_id now step.id db.steps,
    λ t. finish-IsDone step.dns_record_id now step.id db.steps,
  )
  write_back-Advances step db (some remote) =
      let id = (write_row fresh step.dns_record_id remote step.input db.records).1 in
      (
        finish-Keeps (some id) now step.id db.steps,
        λ t. finish-IsDone (some id) now step.id db.steps,
      )

  write_step-Advances :
      (step : Step) (before : Option ProviderRecord) (db : Database) (remote : R)
      → Holds (Advances db.steps step.id) (
          write_step adapter language fuel is_cloudflare around operation now fresh step before db
            remote)
  write_step-Advances step before db remote =
      Holds-bind (Advances db.steps step.id)
        (apply_action adapter language fuel step.attempts before step.action step.input remote) _
        λ left r. Holds-return (Advances db.steps step.id) r _ (write_back-Advances step db left)

  unless_managed-Advances :
      (step : Step) (before : Option ProviderRecord) (db : Database) (remote : R)
      → Holds (Advances db.steps step.id) (
          unless_managed adapter language fuel is_cloudflare around operation now fresh step before
            db remote)
  unless_managed-Advances step before db remote =
      Holds-if (Advances db.steps step.id)
        (str_eq operation.resource_type "dns_record" && around.is_managed_now) _ _ remote
        (Holds-return (Advances db.steps step.id) remote _
          (skip-Keeps (some "rrset_now_managed") now step.id db.steps, λ t. cc))
        (write_step-Advances step before db remote)

  past_cloud_check-Advances :
      (step : Step) (check : Result ProviderError (Unit {0})) (next : Call R (Database × Bool))
      (db : Database) (remote : R)
      → Holds (Advances db.steps step.id) (next remote)
      → Holds (Advances db.steps step.id) (
          past_cloud_check adapter language fuel is_cloudflare around operation now fresh check next
            remote)
  past_cloud_check-Advances step (err e) next db remote h =
      Holds-throw (Advances db.steps step.id) remote e
  past_cloud_check-Advances step (ok done) next db remote h = h

  past_binding-Advances :
      (step : Step) (code : Option String) (before : Option ProviderRecord) (db : Database)
      (remote : R)
      → Holds (Advances db.steps step.id) (
          past_binding adapter language fuel is_cloudflare around operation now fresh step code
            before db remote)
  past_binding-Advances step (some code) before db remote =
      Holds-return (Advances db.steps step.id) remote _ (
        skip-Keeps (some code) now step.id db.steps,
        λ t. skip-IsDone (some code) now step.id db.steps,
      )
  past_binding-Advances step none before db remote =
      past_cloud_check-Advances step around.cloud_check _ db remote
        (unless_managed-Advances step before db remote)

  unmoved :
      (step : Step) (db : Database) (remote : R)
      → Holds (Advances db.steps step.id) (remote, ok (db, false))
  unmoved step db remote = Holds-return (Advances db.steps step.id) remote _ ((λ id h. h), λ t. cc)

  run_transaction-Advances :
      (step : Step) (before : Option ProviderRecord) (db : Database) (remote : R)
      → Holds (Advances db.steps step.id) (
          run_transaction adapter language fuel is_cloudflare around operation now fresh step before
            db remote)
  unfolding run_transaction
  run_transaction-Advances step before db remote =
      let P = Advances db.steps step.id in
      Holds-if P (publishes_released around step.action step.input.input_record) _ _ remote
        (Holds-throw P remote _)
        (Holds-if P (is_stale operation db) _ _ remote
          (Holds-return P remote _ (skip-Keeps none now step.id db.steps, λ t. cc))
          (Holds-if P
            (not (lock_active_operation db) || not (is_running (find_step step.id db.steps))) _ _
            remote (unmoved step db remote)
            (past_binding-Advances step (binding_error around db step.action step.input.binding_id)
              before db remote)))

  commit-Moves :
      (before : List Step) (id : String) (base : Database)
      (run : R × Result ProviderError (Database × Bool))
      → Keeps before base.steps
      → Holds (Advances base.steps id) run
      → Moves before id
          (commit adapter language fuel is_cloudflare around operation now fresh base run)
  commit-Moves before id base (r, err e) keeps holds = (keeps, λ t. cc)
  commit-Moves before id base (r, ok (after, applied)) keeps holds =
      let (kept, reached) = holds (after, applied) refl in
      ((λ other h. kept other (keeps other h)), λ t. reached (ok-injective applied true t))

  keep_before-Keeps :
      (step : Step) (before : Option ProviderRecord) (db : Database)
      → Keeps db.steps
          (keep_before adapter language fuel is_cloudflare around operation now fresh step before
            db).steps
  keep_before-Keeps step none db = λ id h. h
  keep_before-Keeps step (some b) db =
      update_steps-keeps (has_id step.id) _ (λ s. refl) (λ s h. same_status (has_id step.id s) s h)
        db.steps
    where
      same_status :
          (test : Bool) (s : Step)
          → is_finished s.status ≡ true
          → is_finished
              (if test
                then record s { input = keep_old_ttl is_cloudflare b step.input }
                else s).status
            ≡ true
      same_status true s h = h
      same_status false s h = h

  execute_read-Moves :
      (before : List Step) (step : Step) (read : Result ProviderError (Option ProviderRecord))
      (db : Database) (remote : R)
      → Keeps before db.steps
      → Moves before step.id (
          execute_read adapter language fuel is_cloudflare around operation now fresh step read db
            remote)
  execute_read-Moves before step (err e) db remote keeps = (keeps, λ t. cc)
  execute_read-Moves before step (ok read) db remote keeps =
      let kept =
        keep_before adapter language fuel is_cloudflare around operation now fresh step read db in
      commit-Moves before step.id kept _ (λ id h. keep_before-Keeps step read db id (keeps id h))
        (run_transaction-Advances step read kept remote)

  execute_prepared-Moves :
      (before : List Step) (step : Step) (prepared : Database × Bool) (remote : R)
      → Keeps before prepared.0.steps
      → Moves before step.id (
          execute_prepared adapter language fuel is_cloudflare around operation now fresh step
            prepared remote)
  execute_prepared-Moves before step (db, false) remote keeps = (keeps, λ t. cc)
  execute_prepared-Moves before step (db, true) remote keeps =
      execute_read-Moves before step _ db remote keeps

  prepare_step-Keeps :
      (step : Step) (db : Database) → Keeps db.steps (prepare_step operation step now db).0.steps
  unfolding prepare_step
  prepare_step-Keeps step db =
      elim (Bool-cases (is_stale operation db || not (lock_active_operation db))) [
        | inl e ↦ rw e (λ id h. h)
        | inr e ↦ rw e (
            update_steps-keeps (is_open_with step.id) (run_step step.attempts now) (λ s. refl)
              (open-keeps step.id (run_step step.attempts now)) db.steps)
      ]

  execute_row-Moves :
      (id : String) (row : Option Step) (db : Database) (remote : R)
      → find_step id db.steps ≡ row
      → Moves db.steps id
          (execute_row adapter language fuel is_cloudflare around operation now fresh row db remote)
  execute_row-Moves id none db remote e = ((λ other h. h), λ t. ap done_row e)
  execute_row-Moves id (some step) db remote e = elim (Bool-cases (is_finished step.status)) [
    | inl f ↦ rw f ((λ other h. h), λ t. ap done_row e ∙ f)
    | inr f ↦ rw f (
        Moves-as db.steps step.id id
          (execute_prepared adapter language fuel is_cloudflare around operation now fresh step
            (prepare_step operation step now db) remote)
          (find_step-id id db.steps step e)
          (execute_prepared-Moves db.steps step (prepare_step operation step now db) remote
            (prepare_step-Keeps step db)))
  ]

  pub execute_step-Moves :
      (id : String) (db : Database) (remote : R)
      → Moves db.steps id
          (execute_step adapter language fuel is_cloudflare around operation now fresh id db remote)
  unfolding execute_step
  execute_step-Moves id db remote = execute_row-Moves id (find_step id db.steps) db remote refl
