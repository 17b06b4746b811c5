-- ===== src/Operations/Execute.antt =====
-- `executeStep`: the guards before a step's write, the write, and what it leaves in the tables.
use master_dns.Common.{
  ℕ, max, Bool, true, false, not, ◌&&◌, ◌||◌, Option, none, some, String, List, [], ◌∷◌, ◌++◌, ltb,
  Result, if◌then◌else◌, get_or,
}
use master_dns.Common.Text.{str_eq}
use master_dns.Records.Match.{DnsRecordInput}
use master_dns.Operations.Errors.{ProviderError}
use master_dns.Operations.Types.{
  StepAction, delete, StepStatus, succeeded, ProviderRecord, StepInput, Step, Operation, Binding,
  Assignment, DnsRow, Database,
}
use master_dns.Operations.Tables.{update_steps, has_id, skip_step, is_present}

-- What the transaction reads from tables of other components.
pub record Surroundings : Type 0 where
  pub is_releasing : String → Bool
  pub is_deleting : String → Bool
  pub is_managed_now : Bool
  pub cloud_check : Result ProviderError (Unit {0})

abbrev pub is_delete : StepAction → Bool
is_delete delete = true
is_delete _ = false

abbrev pub is_pool_operation : Operation → Bool
is_pool_operation operation = str_eq operation.resource_type "endpoint_pool"

-- `effectiveOldTtl`
abbrev pub effective_old_ttl : (is_cloudflare : Bool) → ℕ → ℕ
effective_old_ttl is_cloudflare ttl =
    if ltb 1 ttl then ttl else if is_cloudflare then 300 else 86400

abbrev pub keep_old_ttl : (is_cloudflare : Bool) → ProviderRecord → StepInput → StepInput
keep_old_ttl is_cloudflare before input = record input {
  cleanup_old_ttl =
      some
        (max (get_or input.cleanup_old_ttl 0) (effective_old_ttl is_cloudflare before.fields.ttl));
}

-- An address that is being released must not be published.
abbrev pub publishes_released : Surroundings → StepAction → Option DnsRecordInput → Bool
publishes_released around action none = false
publishes_released around action (some wanted) =
    not (is_delete action)
    && (str_eq wanted.type "A" || str_eq wanted.type "AAAA")
    && around.is_releasing wanted.content

abbrev pub is_running : Option Step → Bool
is_running none = false
is_running (some s) = running_status s.status
  where
    running_status : StepStatus → Bool
    running_status StepStatus.running = true
    running_status _ = false

abbrev pub has_binding : String → List Binding → Bool
has_binding id [] = false
has_binding id (b ∷ rest) = str_eq b.id id || has_binding id rest

-- The code of the error with which a step on a binding is skipped.
abbrev pub binding_error : Surroundings → Database → StepAction → Option String → Option String
binding_error around db action none = none
binding_error around db action (some id) =
    if is_delete action
    then none
    else if not (has_binding id db.bindings)
    then some "binding_missing"
    else if around.is_deleting id
    then some "binding_deleting"
    else none

abbrev pub skip_with : String → Option String → ℕ → Database → Database
skip_with id error_code now db = record db {
  steps = update_steps (has_id id) (skip_step error_code now) db.steps;
}

-- What a write leaves, once it is verified.
abbrev pub finish_step : Option String → ℕ → Step → Step
finish_step record_id now s = record s {
  status = succeeded;
  dns_record_id = keep record_id;
  error_code = none;
  next_retry_at = none;
  finished_at = some now;
}
  where
    keep : Option String → Option String
    keep none = s.dns_record_id
    keep (some id) = some id

abbrev pub delete_row : String → ℕ → List DnsRow → List DnsRow
delete_row id now [] = []
delete_row id now (row ∷ rows) =
    (if str_eq row.id id
      then record row { deleted_at = some now; is_managed = false; managed_by_pool_id = none }
      else row)
    ∷ delete_row id now rows

-- `toDnsRecordValues`
abbrev pub to_dns_record_values : String → ProviderRecord → StepInput → DnsRow
to_dns_record_values id remote input = record {
  id = id;
  remote = remote;
  is_managed = input.is_managed;
  managed_by_pool_id = if input.is_managed then input.pool_id else none;
  deleted_at = none;
}

abbrev pub replace_row : DnsRow → List DnsRow → List DnsRow
replace_row new [] = []
replace_row new (row ∷ rows) = (if str_eq row.id new.id then new else row) ∷ replace_row new rows

-- The row of the record, by the step's own id or a fresh one.
abbrev pub write_row :
    (fresh : String)
    → Option String
    → ProviderRecord
    → StepInput
    → List DnsRow
    → List DnsRow × String
write_row fresh (some id) remote input rows =
    (replace_row (to_dns_record_values id remote input) rows, id)
write_row fresh none remote input rows =
    (rows ++ (to_dns_record_values fresh remote input ∷ []), fresh)

abbrev pub clear_assignment : Assignment → Assignment
clear_assignment a = record a { applied = false; dns_record_id = none }

abbrev pub clear_where : (Assignment → Bool) → List Assignment → List Assignment
clear_where which [] = []
clear_where which (a ∷ rest) = (if which a then clear_assignment a else a) ∷ clear_where which rest

abbrev pub is_between : String → String → Assignment → Bool
is_between binding endpoint a = str_eq a.binding_id binding && str_eq a.endpoint_id endpoint

abbrev pub assign : String → String → String → List Assignment → List Assignment
assign binding endpoint record_id [] =
    record {
      binding_id = binding;
      endpoint_id = endpoint;
      dns_record_id = some record_id;
      desired = true;
      applied = true;
    }
    ∷ []
assign binding endpoint record_id (a ∷ rest) =
    let later = assign binding endpoint record_id rest in
    if is_between binding endpoint a
    then record a { dns_record_id = some record_id; desired = true; applied = true } ∷ rest
    else a ∷ later

abbrev pub assign_after :
    StepInput → String → Option String → Option String → List Assignment → List Assignment
assign_after input record_id (some binding) (some endpoint) rows =
    assign binding endpoint record_id
      (if input.is_single then clear_where (λ a. str_eq a.binding_id binding) rows else rows)
assign_after input record_id _ _ rows = rows

abbrev pub unassign_after : Option String → Option String → List Assignment → List Assignment
unassign_after (some binding) (some endpoint) rows = clear_where (is_between binding endpoint) rows
unassign_after _ _ rows = rows

abbrev pub delete_known : Option String → ℕ → List DnsRow → List DnsRow
delete_known none now rows = rows
delete_known (some id) now rows = delete_row id now rows

abbrev pub name_resource : String → Option Operation → Option Operation
name_resource id none = none
name_resource id (some operation) =
    if str_eq operation.resource_type "dns_record" && not (is_present operation.resource_id)
    then some (record operation { resource_id = some id })
    else some operation

abbrev pub record_written : String → Step → ProviderRecord → ℕ → Database → Database
record_written fresh step remote now db =
    let (rows, id) = write_row fresh step.dns_record_id remote step.input db.records in
    record db {
      records = rows;
      assignments =
          assign_after step.input id step.input.binding_id step.input.endpoint_id db.assignments;
      operation = name_resource id db.operation;
      steps = update_steps (has_id step.id) (finish_step (some id) now) db.steps;
    }

abbrev pub name_known : Option String → Option Operation → Option Operation
name_known none operation = operation
name_known (some id) operation = name_resource id operation

abbrev pub record_deleted : Step → ℕ → Database → Database
record_deleted step now db = record db {
  records = delete_known step.dns_record_id now db.records;
  assignments = unassign_after step.input.binding_id step.input.endpoint_id db.assignments;
  operation = name_known step.dns_record_id db.operation;
  steps = update_steps (has_id step.id) (finish_step step.dns_record_id now) db.steps;
}

-- After the write: a delete leaves no record.
abbrev pub write_back : String → Step → ℕ → Database → Option ProviderRecord → Database
write_back fresh step now db none = record_deleted step now db
write_back fresh step now db (some remote) = record_written fresh step remote now db
