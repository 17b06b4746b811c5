-- ===== src/Cloud/Examples.antt =====
-- An elastic address of an instance of EC2.
use master_dns.Common.{ℕ, ◌≡◌, refl, true, false, none, some, List, [], ◌∷◌, String, All, ok}
use master_dns.Strategy.Types.{v4}
use master_dns.Cloud.Types.{ec2, CloudRef, SlotRef, CloudAddress, CloudInventory}
use master_dns.Cloud.Steps.{
  ec2_eip_allocate, ec2_eip_associate, CloudStep, rotation_arguments, make_rotation_step,
  is_destructive, new_step,
}
use master_dns.Cloud.Capabilities.{aws_capabilities}
use master_dns.Cloud.Plan.{RotationPlanOptions, plan_aws_rotation, rotation_args}
use master_dns.Cloud.Starting.{HasStart, IsStepOf}
use master_dns.Cloud.Order.{plan_aws_rotation-HasStart}

abbrev family_four : String → ℕ
family_four address = 4

abbrev instance_ref : CloudRef
instance_ref = record {
  account_id = "acct";
  service = ec2;
  region = "us-west-2";
  instance_id = "i-1";
}

abbrev elastic : CloudAddress
elastic = record {
  address = "203.0.113.5";
  family = v4;
  primary = true;
  allocation_id = some "eipalloc-1";
  private_address = some "10.0.0.4";
  resource_id = none;
  aws_address_scope = some "public";
}

abbrev inventory : CloudInventory
inventory = record {
  ref = instance_ref;
  native_name = none;
  ipv6_only = none;
  interfaces = record { id = "eni-1"; device_index = some 0; addresses = elastic ∷ [] } ∷ [];
}

abbrev slot : SlotRef
slot = record {
  ref = instance_ref;
  slot_id = "slot-1";
  interface_id = "eni-1";
  address = "203.0.113.5";
  family = v4;
}

abbrev options : RotationPlanOptions
options = record { allow_stop = false; attempt_id = "attempt_1" }

abbrev planned : List CloudStep
planned =
    new_step ec2_eip_allocate (rotation_args slot inventory "attempt_1") 0
    ∷ new_step ec2_eip_associate (rotation_args slot inventory "attempt_1") 1
    ∷ []

is_planned : plan_aws_rotation family_four slot inventory options ≡ ok planned
unfolding plan_aws_rotation aws_capabilities make_rotation_step rotation_arguments is_destructive
is_planned = refl

plan_aws_rotation-HasStart_example :
    HasStart (aws_capabilities family_four slot inventory).releases_old_address planned
    × All (IsStepOf slot inventory) planned
plan_aws_rotation-HasStart_example =
    plan_aws_rotation-HasStart family_four slot inventory options planned is_planned
