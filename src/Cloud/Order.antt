-- ===== src/Cloud/Order.antt =====
-- The order of the steps of a rotation: the new address first, where the old one can be kept.
use master_dns.Common.{
  ◌≡◌, refl, sym, ap, ◌∙◌, inl, inr, subst, ℕ, true, false, not, ◌&&◌, Option, none, some, List,
  String, All, Bool-cases, Result, ok, err, first_returns, ok-injective, arith,
}
use mathlib.Core.Option.{some-injective}
use master_dns.Cloud.Types.{
  CloudService, ec2, lightsail, azure_vm, linode, same_service, is_v6, SlotRef, CloudAddress,
  CloudInterface, CloudInventory, CloudError, is_present, find_interface, find_in,
}
use master_dns.Cloud.Steps.{CloudStep, is_of}
use master_dns.Cloud.Capabilities.{
  Capability, is_aws, aws_capabilities, address_refusal, capability_of, address_capability,
  interface_capability,
}
use master_dns.Cloud.Starting.{
  HasStart, HasFirst, IsStepOf, releases_old, passes, make_steps-AreStepsOf, make_steps-HasStart,
  plan_actions-HasFirst,
}
use master_dns.Cloud.Plan.{
  RotationPlanOptions, lift, find_address, there, slot_address, plan_actions, make_steps,
  check_first, rotation_args, plan_aws_rotation,
}

service_same : (s t : CloudService) → same_service s t ≡ true → s ≡ t
service_same ec2 ec2 h = refl
service_same lightsail lightsail h = refl
service_same azure_vm azure_vm h = refl
service_same linode linode h = refl
service_same ec2 lightsail h = cc
service_same ec2 azure_vm h = cc
service_same ec2 linode h = cc
service_same lightsail ec2 h = cc
service_same lightsail azure_vm h = cc
service_same lightsail linode h = cc
service_same azure_vm ec2 h = cc
service_same azure_vm lightsail h = cc
service_same azure_vm linode h = cc
service_same linode ec2 h = cc
service_same linode lightsail h = cc
service_same linode azure_vm h = cc

module _ (is_ip : String → ℕ) (slot : SlotRef) (inventory : CloudInventory) where
  -- What the capability says of an address that can be rotated.
  Says : CloudAddress → Capability → Type 0
  Says a capability =
      capability.releases_old_address
      ≡ releases_old inventory.ref.service (is_v6 slot.family) (is_present a.allocation_id)

  capability_of-Says :
      (a : CloudAddress) (refusal : Option String)
      → (capability_of is_ip slot inventory a refusal).available ≡ true
      → Says a (capability_of is_ip slot inventory a refusal)
  unfolding Says releases_old
  capability_of-Says a (some reason) h = cc
  capability_of-Says a none h = refl

  address_capability-Says :
      (i : CloudInterface) (a : CloudAddress) (found : Option CloudAddress)
      → found ≡ some a
      → (address_capability is_ip slot inventory i found).available ≡ true
      → Says a (address_capability is_ip slot inventory i found)
  address_capability-Says i a none found h = cc
  address_capability-Says i a (some b) found h =
      subst (λ x. Says x (address_capability is_ip slot inventory i (some b)))
        (some-injective _ _ found)
        (capability_of-Says b (address_refusal is_ip slot inventory i b) h)

  interface_capability-Says :
      (a : CloudAddress) (found : Option CloudInterface)
      → find_address slot found ≡ some a
      → (interface_capability is_ip slot inventory found).available ≡ true
      → Says a (interface_capability is_ip slot inventory found)
  interface_capability-Says a none found h = cc
  interface_capability-Says a (some i) found h =
      address_capability-Says i a (find_in slot i) found h

  aws_capabilities-Says :
      (a : CloudAddress)
      → find_address slot (find_interface slot inventory) ≡ some a
      → (aws_capabilities is_ip slot inventory).available ≡ true
      → (is_of slot inventory ≡ true) × Says a (aws_capabilities is_ip slot inventory)
  unfolding aws_capabilities
  aws_capabilities-Says a found h = elim (Bool-cases (is_aws inventory.ref.service)) [
    | inr e ↦ absurd (unavailable_not (rw e at h))
    | inl e ↦ elim (Bool-cases (is_of slot inventory)) [
      | inr o ↦ absurd (unavailable_not (rw (e, o) at h))
      | inl o ↦ (
        o,
        rw (e, o)
            (interface_capability-Says a (find_interface slot inventory) found (rw (e, o) at h)),
      )
    ]
  ]
    where
      unavailable_not : false ≡ true → ⊥
      unavailable_not e = cc

  there-found :
      (found : Option CloudAddress) {a : CloudAddress} → there found ≡ ok a → found ≡ some a
  there-found none h = cc
  there-found (some b) h = ap some (ok-injective _ _ h)

  lift-returned :
      {A : Type 0} (result : Result CloudError A) {a : A} → lift result ≡ ok a → result ≡ ok a
  lift-returned (err e) h = cc
  lift-returned (ok b) h = ap ok (ok-injective _ _ h)

  -- The capability of a slot whose service is the inventory's.
  releases-old :
      (a : CloudAddress)
      → is_of slot inventory ≡ true
      → Says a (aws_capabilities is_ip slot inventory)
      → releases_old slot.ref.service (is_v6 slot.family) (is_present a.allocation_id)
        ≡ (aws_capabilities is_ip slot inventory).releases_old_address
  unfolding Says
  releases-old a of_inventory says =
      ap (λ s. releases_old s (is_v6 slot.family) (is_present a.allocation_id))
        (service_same slot.ref.service inventory.ref.service (ground arith))
      ∙ sym says

  -- A rotation of an address of AWS that is planned has a first step; where the capability does not
  -- say that the old address is released in any case, the first step is not destructive; and the
  -- arguments of each step pass the check before it is run, and are the slot and the inventory of the
  -- plan.
  pub plan_aws_rotation-HasStart :
      (options : RotationPlanOptions) (steps : List CloudStep)
      → plan_aws_rotation is_ip slot inventory options ≡ ok steps
      → HasStart (aws_capabilities is_ip slot inventory).releases_old_address steps
        × All (IsStepOf slot inventory) steps
  unfolding plan_aws_rotation
  plan_aws_rotation-HasStart options steps h =
      let capability = aws_capabilities is_ip slot inventory in
      let able = passes (not capability.available) _ _ h in
      let running = passes (capability.requires_stop && not options.allow_stop) _ _ able.1 in
      let found = first_returns (slot_address slot inventory) _ running.1 in
      let planned =
        first_returns (plan_actions slot inventory slot.ref.service found.0) _ found.2 in
      let made =
        first_returns
          (lift (make_steps (rotation_args slot inventory options.attempt_id) 0 planned.0)) _
          planned.2 in
      let checked = first_returns (check_first made.0) _ made.2 in
      let returned =
        lift-returned (make_steps (rotation_args slot inventory options.attempt_id) 0 planned.0)
          made.1 in
      let says =
        aws_capabilities-Says found.0
          (there-found (find_address slot (find_interface slot inventory)) found.1)
          (ground arith) in
      let start =
        subst (λ r. HasFirst r planned.0) (releases-old found.0 says.0 says.1)
          (plan_actions-HasFirst slot inventory slot.ref.service found.0 planned.1) in
      subst (λ s. HasStart capability.releases_old_address s × All (IsStepOf slot inventory) s)
        (ok-injective _ _ checked.2)
        (
          make_steps-HasStart slot inventory options.attempt_id capability.releases_old_address 0
              planned.0 start returned,
          make_steps-AreStepsOf slot inventory options.attempt_id 0 planned.0 returned,
        )
