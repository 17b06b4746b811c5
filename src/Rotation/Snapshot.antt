-- ===== src/Rotation/Snapshot.antt =====
-- The facts that the coordinator reads, and the actions that it may be told to take.
use master_dns.Common.{ℕ, Bool, Option, List, String}
use master_dns.Common.Number.{Number}
use master_dns.Consensus.{RoundDecision}

pub data RotationCloudRejection : Type 0 where
  permission_denied quota_exceeded credentials_expired invalid_credentials rate_limited
        temporary_cloud_error unknown_cloud_error rotation_unsupported cloud_writes_not_enabled
        remote_identity_changed resource_not_found :
      RotationCloudRejection

pub data StepStatus : Type 0 where
  prepared applied not_applied ambiguous abandoned : StepStatus
  in_flight pending : (observe_deadline : Number) → StepStatus
  rejected_no_effect : (reason : RotationCloudRejection) (retry_at : Option Number) → StepStatus

pub record RotationStepSnapshot : Type 0 where
  pub step_id : String
  pub status : StepStatus

pub record RotationRevisions : Type 0 where
  pub authorization : ℕ
  pub policy : ℕ
  pub address : ℕ

pub record Evidence : Type 0 where
  pub address_version : ℕ
  pub probe_config_revision : ℕ
  pub decision : RoundDecision
  pub consecutive_successes : Number
  pub consecutive_failures : Number
  pub observed_at : Number
  pub expires_at : Number

pub record RotationCandidate : Type 0 where
  pub address_version : ℕ
  pub probe_config_revision : ℕ
  pub success_threshold : Number
  pub failure_threshold : Number
  pub probe_window_ends_at : Number
  pub next_probe_at : Number
  pub evidence : Option Evidence

pub data Phase : Type 0 where
  cloud candidate publish cleanup complete : Phase

pub record Authorization : Type 0 where
  pub managed : Bool
  pub family_enabled : Bool
  pub present : Bool
  pub region_allowed : Bool
  pub conflicting_manager : Bool
  pub lifecycle_blocked : Bool

pub record Lease : Type 0 where
  pub held : Bool
  pub revision : ℕ
  pub expected_revision : ℕ

pub record Budget : Type 0 where
  pub segment_id : String
  pub attempts_used : Number
  pub max_attempts : Number
  pub exhausted : Bool

pub record Attempt : Type 0 where
  pub attempt_id : String
  pub segment_id : String
  pub charged : Bool
  pub steps : List RotationStepSnapshot

pub data Publication : Type 0 where
  pending failed : Publication
  in_flight applied : (address_version : ℕ) → Publication

pub record CleanupPlan : Type 0 where
  pub authorized : Bool
  pub ownership_verified : Bool
  pub not_before : Number
  pub steps : List RotationStepSnapshot

pub data Cleanup : Type 0 where
  not_required failed : Cleanup
  required : CleanupPlan → Cleanup

pub record RotationSnapshot : Type 0 where
  pub phase : Phase
  pub authorization : Authorization
  pub revisions : RotationRevisions
  pub expected_revisions : RotationRevisions
  pub lease : Lease
  pub budget : Budget
  pub next_attempt_at : Number
  pub attempt : Option Attempt
  pub candidate : Option RotationCandidate
  pub publication : Publication
  pub cleanup : Cleanup

pub data RotationPauseReason : Type 0 where
  rejected : RotationCloudRejection → RotationPauseReason
  authorization_revoked family_disabled region_excluded conflicting_manager authorization_changed
        configuration_changed address_version_changed stale_fence attempts_exhausted
        resource_ownership_ambiguous cloud_not_applied candidate_failed dns_partial
        cleanup_not_authorized cleanup_failed invalid_snapshot instance_lifecycle_busy :
      RotationPauseReason

pub data WaitReason : Type 0 where
  instance_busy cooldown candidate_required probe_insufficient publication_required cleanup_grace :
      WaitReason
  rejected : RotationCloudRejection → WaitReason

pub data PublishMode : Type 0 where
  dispatch observe : PublishMode

pub data RotationAction : Type 0 where
  wait : (reason : WaitReason) (until : Option Number) → RotationAction
  prepare_attempt : (budget_segment_id : String) → RotationAction
  cloud_step : (attempt_id step_id : String) → RotationAction
  observe : (attempt_id step_id : String) (convergence_expired : Bool) → RotationAction
  probe : (address_version : ℕ) (window_expired : Bool) → RotationAction
  publish : (mode : PublishMode) (address_version : ℕ) → RotationAction
  cleanup : (attempt_id step_id : String) → RotationAction
  pause : (reason : RotationPauseReason) → RotationAction
  complete : RotationAction
