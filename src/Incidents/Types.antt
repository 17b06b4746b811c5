-- ===== src/Incidents/Types.antt =====
-- The rows that a transaction on an incident reads and writes. Times are in milliseconds.
use master_dns.Common.{ℕ, Bool, Option, none, some, List, String}
use master_dns.Strategy.Types.{AddressFamily}
use master_dns.Cloud.Types.{CloudService}
use master_dns.Schedules.Types.{IncidentStatus, RotationSchedule}

pub data CloudProvider : Type 0 where
  aws azure linode : CloudProvider

pub data CloudRotationTrigger : Type 0 where
  health manual scheduled : CloudRotationTrigger

pub record CloudAccount : Type 0 where
  pub owner_user_id : String
  pub provider : CloudProvider
  pub external_account_id : Option String
  pub enabled : Bool
  pub regions : Option (List String)

pub record CloudInstance : Type 0 where
  pub service : CloudService
  pub region : String
  pub scan_generation : ℕ
  pub present : Option Bool
  pub ipv6_only : Option Bool

pub record NetworkInterface : Type 0 where
  pub scan_generation : ℕ
  pub primary_addresses : List String
  pub device_index : Option ℕ

pub record AddressSlot : Type 0 where
  pub id : String
  pub family : AddressFamily
  pub current_address_id : Option String
  pub candidate_address_id : Option String
  pub current_version : ℕ
  pub candidate_version : ℕ
  pub reset_recovery_retries : ℕ

pub record SlotAddress : Type 0 where
  pub id : String
  pub address : String
  pub inventory_present : Bool
  pub remote_allocation_id : Option String
  pub private_address : Option String
  pub aws_address_scope : Option String

pub record Authorization : Type 0 where
  pub managed : Bool
  pub allow_ipv4_rotation : Bool
  pub allow_ipv6_rotation : Bool
  pub allow_stop_start : Bool
  pub revision : ℕ

pub record RotationPolicy : Type 0 where
  pub slot_id : String
  pub enabled : Bool
  pub max_attempts : ℕ
  pub revision : ℕ
  pub linode_ipv4_strategy : String
  pub linode_allow_temporary_instance : Bool
  pub updated_at : ℕ

-- `RotationContext`, where `scope` says whether the region's scan scope was found.
pub record RotationContext : Type 0 where
  pub account : CloudAccount
  pub instance_ : CloudInstance
  pub iface : Option NetworkInterface
  pub slot : AddressSlot
  pub address : Option SlotAddress
  pub authorization : Option Authorization
  pub policy : Option RotationPolicy
  pub scope : Bool
  pub physical_key : String
  pub lifecycle_blocked : Bool
  pub conflicting_manager : Bool

abbrev pub address_version : AddressSlot → ℕ
address_version slot = version slot.candidate_address_id
  where
    version : Option String → ℕ
    version none = slot.current_version
    version (some id) = slot.candidate_version

-- The six columns that an incident has all of, or, where it is manual, none.
pub record HealthRevisions : Type 0 where
  pub health_policy_id : String
  pub health_policy_revision : ℕ
  pub config_id : String
  pub config_revision : ℕ
  pub group_id : String
  pub group_revision : ℕ

pub data IncidentPhase : Type 0 where
  cloud candidate publish cleanup complete : IncidentPhase

pub record RotationIncident : Type 0 where
  pub id : String
  pub owner_user_id : String
  pub slot_id : String
  pub family : AddressFamily
  pub physical_key : String
  pub source_event_id : String
  pub trigger : CloudRotationTrigger
  pub release_old_address : Bool
  pub status : IncidentStatus
  pub phase : IncidentPhase
  pub current_segment_id : String
  pub current_attempt_id : Option String
  pub pending_segment_id : Option String
  pub authorization_revision : ℕ
  pub policy_revision : ℕ
  pub address_version : ℕ
  pub health_revisions : Option HealthRevisions
  pub next_attempt_at : ℕ
  pub next_run_at : ℕ
  pub error_code : Option String
  pub recovery_retries : ℕ
  pub recovery_retry_at : Option ℕ
  pub last_recovery_error : Option String
  pub paused_by_user_id : Option String
  pub created_at : ℕ
  pub updated_at : ℕ
  pub completed_at : Option ℕ
  pub terminated_at : Option ℕ

pub record BudgetSegment : Type 0 where
  pub id : String
  pub incident_id : String
  pub max_attempts : ℕ
  pub attempts_used : ℕ
  pub exhausted : Bool
  pub actor_user_id : Option String

pub data AttemptStatus : Type 0 where
  prepared cloud candidate candidate_failed verified abandoned : AttemptStatus

pub record RotationAttempt : Type 0 where
  pub id : String
  pub incident_id : String
  pub charged : Bool
  pub status : AttemptStatus

pub data RotationStepStatus : Type 0 where
  prepared in_flight pending applied not_applied ambiguous rejected_no_effect abandoned :
      RotationStepStatus

-- Of the plan, the receipt that a retry carries.
pub record RotationStep : Type 0 where
  pub id : String
  pub attempt_id : String
  pub status : RotationStepStatus
  pub retry_receipt : Option String
  pub receipt : Option String
  pub error_code : Option String
  pub retry_at : Option ℕ
  pub updated_at : ℕ

pub record RotationLease : Type 0 where
  pub physical_key : String
  pub revision : ℕ
  pub holder : Option String
  pub expires_at : ℕ
  pub incident_id : Option String
  pub unresolved_step_id : Option String

pub data CleanupStatus : Type 0 where
  retained pending released failed : CleanupStatus

pub record RotationResource : Type 0 where
  pub id : String
  pub incident_id : String
  pub cleanup_status : CleanupStatus
  pub cleanup_error : Option String
  pub cleanup_due_at : Option ℕ

pub record Tables : Type 0 where
  pub incidents : List RotationIncident
  pub segments : List BudgetSegment
  pub attempts : List RotationAttempt
  pub steps : List RotationStep
  pub leases : List RotationLease
  pub policies : List RotationPolicy
  pub resources : List RotationResource
  pub schedules : List RotationSchedule

-- What a transaction takes from its surroundings: its start, `databaseNow`, two new ids and the user.
pub record Surroundings : Type 0 where
  pub started : ℕ
  pub now : ℕ
  pub incident_id : String
  pub segment_id : String
  pub actor_user_id : Option String
