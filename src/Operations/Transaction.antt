-- ===== src/Operations/Transaction.antt =====
-- `executeStep`: its transaction, and the reading and preparing before it.
use master_dns.Common.{
  ℕ, Bool, true, false, not, ◌&&◌, ◌||◌, Option, none, some, String, Result, err, ok, if◌then◌else◌,
}
use master_dns.Common.Text.{str_eq}
use master_dns.Operations.Errors.{ProviderError, transient_failure, Call, ◌>>=◌, return_, throw}
use master_dns.Operations.Types.{Step, Operation, Database, ProviderRecord}
use master_dns.Operations.Tables.{
  update_steps, has_id, find_step, is_finished, is_stale, lock_active_operation, prepare_step,
}
use master_dns.Operations.Remote.{Adapter, Language, apply_action}
use master_dns.Operations.Execute.{
  Surroundings, publishes_released, is_running, binding_error, skip_with, write_back,
  is_pool_operation, keep_old_ttl,
}

-- The state that a step's work leaves, and what it returns or throws.
abbrev pub Execution : Type 0 → Type 0
Execution R = (R × Database) × Result ProviderError Bool

module _ {R : Type 0} (adapter : Adapter R) (language : Language) (fuel : ℕ) (is_cloudflare : Bool)
    (around : Surroundings) (operation : Operation) (now : ℕ) (fresh : String) where
  abbrev pub write_step : Step → Option ProviderRecord → Database → Call R (Database × Bool)
  write_step step before db = do
    left ← apply_action adapter language fuel step.attempts before step.action step.input
    return_ (write_back fresh step now db left, true)

  abbrev pub unless_managed : Step → Option ProviderRecord → Database → Call R (Database × Bool)
  unless_managed step before db =
      if str_eq operation.resource_type "dns_record" && around.is_managed_now
      then return_ (skip_with step.id (some "rrset_now_managed") now db, false)
      else write_step step before db

  abbrev pub past_cloud_check :
      Result ProviderError (Unit {0}) → Call R (Database × Bool) → Call R (Database × Bool)
  past_cloud_check (err e) next remote = (remote, err e)
  past_cloud_check (ok done) next remote = next remote

  abbrev pub past_binding :
      Step → Option String → Option ProviderRecord → Database → Call R (Database × Bool)
  past_binding step (some code) before db = return_ (skip_with step.id (some code) now db, true)
  past_binding step none before db =
      past_cloud_check around.cloud_check (unless_managed step before db)

  -- The result is false where the operation is to be superseded.
  unfoldable pub run_transaction :
      Step → Option ProviderRecord → Database → Call R (Database × Bool)
  run_transaction step before db =
      if publishes_released around step.action step.input.input_record
      then throw transient_failure
      else if is_stale operation db
      then return_ (skip_with step.id none now db, false)
      else if not (lock_active_operation db) || not (is_running (find_step step.id db.steps))
      then return_ (db, false)
      else past_binding step (binding_error around db step.action step.input.binding_id) before db

  -- The record before the change, of a step of a pool.
  abbrev pub read_before : Step → R → Result ProviderError (Option ProviderRecord)
  read_before step remote =
      if is_pool_operation operation then read_known step.input.record_external_id else ok none
    where
      read_known : Option String → Result ProviderError (Option ProviderRecord)
      read_known none = ok none
      read_known (some id) = adapter.get_record step.input.zone_external_id id remote

  -- Its TTL is saved before any side effect.
  abbrev pub keep_before : Step → Option ProviderRecord → Database → Database
  keep_before step none db = db
  keep_before step (some before) db = record db {
    steps =
        update_steps (has_id step.id)
          (λ s. record s { input = keep_old_ttl is_cloudflare before step.input }) db.steps;
  }

  -- A transaction that throws leaves what was committed before it.
  abbrev pub commit : Database → R × Result ProviderError (Database × Bool) → Execution R
  commit before (remote, err e) = ((remote, before), err e)
  commit before (remote, ok (after, applied)) = ((remote, after), ok applied)

  abbrev pub execute_read :
      Step → Result ProviderError (Option ProviderRecord) → Database → R → Execution R
  execute_read step (err e) db remote = ((remote, db), err e)
  execute_read step (ok before) db remote =
      let kept = keep_before step before db in commit kept (run_transaction step before kept remote)

  abbrev pub execute_prepared : Step → Database × Bool → R → Execution R
  execute_prepared step (db, false) remote = ((remote, db), ok false)
  execute_prepared step (db, true) remote = execute_read step (read_before step remote) db remote

  abbrev pub execute_row : Option Step → Database → R → Execution R
  execute_row none db remote = ((remote, db), ok true)
  execute_row (some step) db remote =
      if is_finished step.status
      then ((remote, db), ok true)
      else execute_prepared step (prepare_step operation step now db) remote

  unfoldable pub execute_step : (id : String) → Database → R → Execution R
  execute_step id db remote = execute_row (find_step id db.steps) db remote
