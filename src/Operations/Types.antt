-- ===== src/Operations/Types.antt =====
-- The tables that an operation's worker reads and writes, for one operation.
use master_dns.Common.{ℕ, Bool, Option, String, List}
use master_dns.Records.Match.{DnsRecordInput}
use master_dns.Operations.Errors.{ProviderErrorCode}

pub data OperationStatus : Type 0 where
  pending running succeeded partial failed superseded : OperationStatus

pub data StepStatus : Type 0 where
  pending running succeeded failed skipped : StepStatus

pub data StepAction : Type 0 where
  create update delete : StepAction

pub data BindingState : Type 0 where
  healthy switching failed drifted : BindingState

pub data AccountStatus : Type 0 where
  active disabled error : AccountStatus

pub record ProviderRecord : Type 0 where
  pub external_id : String
  pub fields : DnsRecordInput

pub record StepInput : Type 0 where
  pub zone_external_id : String
  pub record_external_id : Option String
  pub input_record : Option DnsRecordInput
  pub binding_id : Option String
  pub endpoint_id : Option String
  pub is_single : Bool
  pub is_managed : Bool
  pub pool_id : Option String
  pub cleanup_old_ttl : Option ℕ
  pub delete_binding : Bool

pub record Step : Type 0 where
  pub id : String
  pub account_id : String
  pub status : StepStatus
  pub action : StepAction
  pub attempts : ℕ
  pub dns_record_id : Option String
  pub error_code : Option String
  pub next_retry_at : Option ℕ
  pub started_at : Option ℕ
  pub finished_at : Option ℕ
  pub input : StepInput

pub record Revisions : Type 0 where
  pub policy_revision : ℕ
  pub decision_revision : ℕ

pub record Operation : Type 0 where
  pub resource_type : String
  pub resource_id : Option String
  pub policy_revision : Option ℕ
  pub decision_revision : Option ℕ
  pub status : OperationStatus
  pub error_code : Option String
  pub started_at : Option ℕ
  pub finished_at : Option ℕ

pub record Binding : Type 0 where
  pub id : String
  pub state : BindingState

pub record Assignment : Type 0 where
  pub binding_id : String
  pub endpoint_id : String
  pub dns_record_id : Option String
  pub desired : Bool
  pub applied : Bool

pub record DnsRow : Type 0 where
  pub id : String
  pub remote : ProviderRecord
  pub is_managed : Bool
  pub managed_by_pool_id : Option String
  pub deleted_at : Option ℕ

pub record Account : Type 0 where
  pub id : String
  pub status : AccountStatus
  pub error_code : Option ProviderErrorCode

pub record Database : Type 0 where
  pub operation : Option Operation
  pub steps : List Step
  pub pool : Option Revisions
  pub bindings : List Binding
  pub assignments : List Assignment
  pub records : List DnsRow
  pub accounts : List Account
