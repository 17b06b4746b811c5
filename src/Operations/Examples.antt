-- ===== src/Operations/Examples.antt =====
-- A provider that keeps its records in a list, and an operation that deletes one of two records.
use master_dns.Common.{
  ◌≡◌, refl, Bool, true, false, not, Option, none, some, String, List, [], ◌∷◌, filter, Result, err,
  ok, arith,
}
use master_dns.Common.Text.{str_eq}
use master_dns.Records.Match.{DnsRecordInput}
use master_dns.Records.Values.{end}
use master_dns.Operations.Errors.{ProviderError, plain_error, not_found}
use master_dns.Operations.Types.{
  OperationStatus, partial, StepStatus, delete, ProviderRecord, StepInput, Step, Operation,
  Database,
}
use master_dns.Operations.Remote.{
  Adapter, Language, Page, find_match, find_matching_record, apply_action,
  delete_remote_record_and_verify,
}
use master_dns.Operations.Execute.{Surroundings}
use master_dns.Operations.Process.{Job, run_steps}
use master_dns.Operations.Transaction.{execute_step, run_transaction}
use master_dns.Operations.Tables.{is_terminal_operation_status, prepare_step, lock_active_operation}
use master_dns.Operations.Finalize.{process_locked, finalize_operation, final_status}
use master_dns.Operations.Search.{last, more, find_matching_record_lem}
use master_dns.Operations.Writing.{IsApplied, apply_action-IsApplied}
use master_dns.Operations.Conclusion.{AreSettled, process_with, process_with-AreSettled}
use master_dns.Operations.Lifecycle.{EndsAfter, start, next, claims, cancels, Reach-ended}
use master_dns.Operations.Cancel.{cancel_operation}

abbrev address : String → DnsRecordInput
address content = record {
  type = "A";
  name = "www.example.org";
  content = content;
  ttl = 300;
  priority = none;
  provider_metadata = end;
}

abbrev old_record : ProviderRecord
old_record = record { external_id = "r1"; fields = address "203.0.113.7" }

abbrev new_record : ProviderRecord
new_record = record { external_id = "r2"; fields = address "203.0.113.8" }

abbrev has_external_id : String → ProviderRecord → Bool
has_external_id id r = str_eq r.external_id id

abbrev listing : Option String → Result ProviderError Page
listing none = ok (record { items = old_record ∷ []; next_cursor = some "2" })
listing (some cursor) = ok (record { items = new_record ∷ []; next_cursor = none })

abbrev table : Adapter (List ProviderRecord)
table = record {
  list_records = λ zone cursor rows. ok (record { items = rows; next_cursor = none });
  get_record = λ zone id rows. ok (find_match (has_external_id id) rows);
  create_record = λ zone wanted rows. (
    (record { external_id = "r3"; fields = wanted }) ∷ rows,
    ok (record { external_id = "r3"; fields = wanted }),
  );
  update_record = λ zone id wanted rows. (rows, err (plain_error not_found));
  delete_record = λ zone id rows. (filter (λ r. not (has_external_id id r)) rows, ok tt);
}

abbrev plain : Language
plain = record { to_lower = λ s. s; strip_dot = λ s. s; index_key = λ i. "" }

find_matching_record_lem_example :
    find_matching_record 2 listing (has_external_id "r2") none ≡ ok (some new_record)
find_matching_record_lem_example =
    find_matching_record_lem 2 listing (has_external_id "r2") none _
      (more none _ "2" _ refl refl (last (some "2") _ refl refl)) (omega arith)

abbrev deletion : StepInput
deletion = record {
  zone_external_id = "z";
  record_external_id = some "r1";
  input_record = none;
  binding_id = none;
  endpoint_id = none;
  is_single = false;
  is_managed = false;
  pool_id = none;
  cleanup_old_ttl = none;
  delete_binding = false;
}

abbrev rows : List ProviderRecord
rows = old_record ∷ new_record ∷ []

apply_action-IsApplied_example :
    IsApplied table plain 1 delete deletion none
      (apply_action table plain 1 0 none delete deletion rows).0
unfolding apply_action delete_remote_record_and_verify
apply_action-IsApplied_example =
    apply_action-IsApplied table plain 1 0 none delete deletion rows none refl

abbrev step : Step
step = record {
  id = "s1";
  account_id = "a1";
  status = StepStatus.pending;
  action = delete;
  attempts = 0;
  dns_record_id = none;
  error_code = none;
  next_retry_at = none;
  started_at = none;
  finished_at = none;
  input = deletion;
}

abbrev operation : OperationStatus → Operation
operation status = record {
  resource_type = "dns_record";
  resource_id = none;
  policy_revision = none;
  decision_revision = none;
  status = status;
  error_code = none;
  started_at = none;
  finished_at = none;
}

abbrev database : OperationStatus → Database
database status = record {
  operation = some (operation status);
  steps = step ∷ [];
  pool = none;
  bindings = [];
  assignments = [];
  records = [];
  accounts = [];
}

abbrev quiet : Surroundings
quiet = record {
  is_releasing = λ s. false;
  is_deleting = λ s. false;
  is_managed_now = false;
  cloud_check = ok tt;
}

abbrev job : Job
job = record { attempts_made = 0; max_attempts = 5; now = 10 }

process_with-AreSettled_example :
    AreSettled
      (step ∷ [])
      (process_with table plain 1 true quiet "d1"
        (λ c. "")
        (λ e. false)
        job
        (database OperationStatus.pending)
        rows).0.1.steps
unfolding process_locked is_terminal_operation_status run_steps execute_step prepare_step
    lock_active_operation run_transaction apply_action delete_remote_record_and_verify
    finalize_operation final_status
process_with-AreSettled_example =
    process_with-AreSettled table plain 1 true quiet "d1" (λ c. "") (λ e. false) job
      (database OperationStatus.pending) rows (refl, tt) 1 0 refl

Reach-ended_example : EndsAfter partial (cancel_operation 9 (database partial))
unfolding is_terminal_operation_status
Reach-ended_example =
    Reach-ended table plain 1 true (λ c. "") partial (database partial)
      (cancel_operation 9 (database partial))
      (next (database partial) (database partial) (cancel_operation 9 (database partial))
        (claims 5 (database partial))
        (next (database partial) (cancel_operation 9 (database partial))
          (cancel_operation 9 (database partial)) (cancels 9 (database partial))
          (start (cancel_operation 9 (database partial)))))
      (refl, refl)
