-- ===== src/Cloud/Plan.antt =====
-- `planAwsRotation` and `planAwsRotationCleanup`.
use master_dns.Common.{
  ℕ, suc, Bool, true, false, not, ◌&&◌, ◌||◌, Option, none, some, List, [], ◌∷◌, String,
  if◌then◌else◌, Result, ok, err, ◌>>=◌, ◌>>◌, throw_if, is_some,
}
use master_dns.Common.Text.{str_eq}
use master_dns.Cloud.Types.{
  CloudService, ec2, lightsail, azure_vm, linode, same_service, is_v6, SlotRef, CloudAddress,
  CloudInterface, CloudInventory, CloudErrorCode, rotation_unsupported, cleanup_not_authorized,
  resource_ownership_ambiguous, CloudError, is_present, find_interface, find_in,
}
use master_dns.Cloud.Steps.{
  RotationAction, ec2_auto_ipv4_disable, ec2_auto_ipv4_enable, ec2_eip_allocate, ec2_eip_associate,
  ec2_eip_release, ec2_ipv6_assign, ec2_ipv6_unassign, lightsail_static_ip_allocate,
  lightsail_static_ip_detach, lightsail_static_ip_attach, lightsail_static_ip_release,
  lightsail_ipv6_disable, lightsail_ipv6_enable, rotation, post_publish_cleanup,
  CleanupOwnershipSnapshot, RotationStepArguments, CloudStep, rotation_arguments,
  make_rotation_step,
}
use master_dns.Cloud.Capabilities.{aws_capabilities}

-- What is thrown: an error of the library, or the type error of a value that is not there.
pub data Thrown : Type 0 where
  cloud_error : CloudError → Thrown
  type_error : Thrown

pub record RotationPlanOptions : Type 0 where
  pub allow_stop : Bool
  pub attempt_id : String

pub record CleanupPlanOptions : Type 0 where
  pub attempt_id : String
  pub release_authorized : Bool
  pub published_address : String
  pub ownership_attempt_id : Option String
  pub ownership_snapshot : Option CleanupOwnershipSnapshot

abbrev pub thrown : CloudErrorCode → Option String → Thrown
thrown code reason = cloud_error (record { code = code; retryable = false; reason = reason })

abbrev pub unsupported : String → Thrown
unsupported reason = thrown rotation_unsupported (some reason)

abbrev pub lift : {A : Type 0} → Result CloudError A → Result Thrown A
lift (err e) = err (cloud_error e)
lift (ok a) = ok a

abbrev pub find_address : SlotRef → Option CloudInterface → Option CloudAddress
find_address slot none = none
find_address slot (some i) = find_in slot i

abbrev pub there : Option CloudAddress → Result Thrown CloudAddress
there none = err type_error
there (some a) = ok a

abbrev pub slot_address : SlotRef → CloudInventory → Result Thrown CloudAddress
slot_address slot inventory = there (find_address slot (find_interface slot inventory))

abbrev pub ec2_actions : (v6 allocated : Bool) → List RotationAction
ec2_actions true allocated = ec2_ipv6_assign ∷ []
ec2_actions false true = ec2_eip_allocate ∷ ec2_eip_associate ∷ []
ec2_actions false false = ec2_auto_ipv4_disable ∷ ec2_auto_ipv4_enable ∷ []

abbrev pub lightsail_actions : (v6 allocated : Bool) → List RotationAction
lightsail_actions true allocated = lightsail_ipv6_disable ∷ lightsail_ipv6_enable ∷ []
lightsail_actions false true =
    lightsail_static_ip_allocate ∷ lightsail_static_ip_detach ∷ lightsail_static_ip_attach ∷ []
lightsail_actions false false = lightsail_static_ip_allocate ∷ lightsail_static_ip_attach ∷ []

abbrev pub plan_actions :
    SlotRef → CloudInventory → CloudService → CloudAddress → Result Thrown (List RotationAction)
plan_actions slot inventory ec2 a =
    ok (ec2_actions (is_v6 slot.family) (is_present a.allocation_id))
plan_actions slot inventory lightsail a =
    if not (is_present inventory.native_name)
    then err (unsupported "native_name_missing")
    else ok (lightsail_actions (is_v6 slot.family) (is_present a.allocation_id))
plan_actions slot inventory azure_vm a = err (unsupported "service_unavailable")
plan_actions slot inventory linode a = err (unsupported "service_unavailable")

abbrev pub make_steps :
    RotationStepArguments → ℕ → List RotationAction → Result CloudError (List CloudStep)
make_steps args index [] = ok []
make_steps args index (action ∷ actions) = do
  step ← make_rotation_step action args index
  steps ← make_steps args (suc index) actions
  ok (step ∷ steps)

abbrev pub check_first : List CloudStep → Result Thrown RotationStepArguments
check_first [] = err type_error
check_first (step ∷ steps) = lift (rotation_arguments step.arguments)

abbrev pub rotation_args : SlotRef → CloudInventory → String → RotationStepArguments
rotation_args slot inventory attempt_id = record {
  slot = slot;
  attempt_id = attempt_id;
  before = inventory;
  phase = rotation;
  release_authorized = false;
  published_address = none;
  ownership_attempt_id = none;
  ownership_snapshot = none;
}

abbrev pub cleanup_args : SlotRef → CloudInventory → CleanupPlanOptions → RotationStepArguments
cleanup_args slot inventory options = record {
  slot = slot;
  attempt_id = options.attempt_id;
  before = inventory;
  phase = post_publish_cleanup;
  release_authorized = options.release_authorized;
  published_address = some options.published_address;
  ownership_attempt_id = options.ownership_attempt_id;
  ownership_snapshot = options.ownership_snapshot;
}

abbrev pub refused_reason : Option String → Thrown
refused_reason reason = thrown rotation_unsupported reason

abbrev pub release_action : Bool → RotationAction
release_action true = ec2_eip_release
release_action false = lightsail_static_ip_release

abbrev pub cleanup_action :
    SlotRef → CleanupPlanOptions → CloudAddress → Result Thrown RotationAction
cleanup_action slot options a =
    if same_service slot.ref.service ec2 && is_v6 slot.family
    then ok ec2_ipv6_unassign
    else if not (is_present a.allocation_id)
    then err (unsupported "no_releasable_resource")
    else if not (is_present options.ownership_attempt_id)
        && not (is_some options.ownership_snapshot)
    then err (thrown resource_ownership_ambiguous none)
    else ok (release_action (same_service slot.ref.service ec2))

module _ (is_ip : String → ℕ) where
  unfoldable pub plan_aws_rotation :
      SlotRef → CloudInventory → RotationPlanOptions → Result Thrown (List CloudStep)
  plan_aws_rotation slot inventory options = do
    throw_if (not (aws_capabilities is_ip slot inventory).available)
        (refused_reason (aws_capabilities is_ip slot inventory).reason)
    throw_if ((aws_capabilities is_ip slot inventory).requires_stop && not options.allow_stop)
        (unsupported "stop_not_authorized")
    address ← slot_address slot inventory
    actions ← plan_actions slot inventory slot.ref.service address
    steps ← lift (make_steps (rotation_args slot inventory options.attempt_id) 0 actions)
    _ ← check_first steps
    ok steps

  unfoldable pub plan_aws_rotation_cleanup :
      SlotRef → CloudInventory → CleanupPlanOptions → Result Thrown (List CloudStep)
  plan_aws_rotation_cleanup slot inventory options = do
    throw_if
        (not (same_service slot.ref.service ec2) && not (same_service slot.ref.service lightsail))
        (unsupported "service_unavailable")
    throw_if
        (not options.release_authorized
          || str_eq options.published_address ""
          || str_eq options.published_address slot.address)
        (thrown cleanup_not_authorized none)
    _ ←
        plan_aws_rotation slot inventory
          (record { allow_stop = false; attempt_id = options.attempt_id })
    selected ← slot_address slot inventory
    action ← cleanup_action slot options selected
    step ← lift (make_rotation_step action (cleanup_args slot inventory options) 0)
    _ ← lift (rotation_arguments step.arguments)
    ok (step ∷ [])
