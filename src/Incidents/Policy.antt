-- ===== src/Incidents/Policy.antt =====
-- packages/contracts/src/cloud-rotation-policy.ts, `rotationAuthorizationError` and the checks on
-- the address.
use master_dns.Common.{
  ℕ, Bool, true, false, not, ◌&&◌, ◌||◌, Option, none, some, List, [], String, is_some, ◌==◌,
  if◌then◌else◌,
}
use master_dns.Common.Text.{str_eq, includes}
use master_dns.Strategy.Types.{AddressFamily, v4, v6}
use master_dns.Cloud.Types.{CloudService, ec2, lightsail, azure_vm, linode, is_v6, is_present}
use master_dns.Cloud.Capabilities.{has_private_octets, is_scope, is_first_device, refuse}
use master_dns.Incidents.Types.{
  CloudProvider, aws, azure, CloudRotationTrigger, health, manual, scheduled, NetworkInterface,
  AddressSlot, SlotAddress, Authorization, RotationPolicy, RotationContext,
}

abbrev pub is_provider_of : CloudProvider → CloudService → Bool
is_provider_of aws ec2 = true
is_provider_of aws lightsail = true
is_provider_of azure azure_vm = true
is_provider_of CloudProvider.linode linode = true
is_provider_of _ _ = false

abbrev pub has_trigger : CloudService → CloudRotationTrigger → Bool
has_trigger azure_vm manual = false
has_trigger _ _ = true

abbrev pub supports_rotation_trigger : CloudProvider → CloudService → CloudRotationTrigger → Bool
supports_rotation_trigger provider service trigger =
    is_provider_of provider service && has_trigger service trigger

abbrev pub is_health : CloudRotationTrigger → Bool
is_health health = true
is_health _ = false

abbrev pub is_manual : CloudRotationTrigger → Bool
is_manual manual = true
is_manual _ = false

abbrev pub same_id : Option String → Option String → Bool
same_id none none = true
same_id (some a) (some b) = str_eq a b
same_id _ _ = false

abbrev pub is_swap : Option RotationPolicy → Bool
is_swap none = false
is_swap (some policy) =
    str_eq policy.linode_ipv4_strategy "instance_swap" && not policy.linode_allow_temporary_instance

abbrev pub authorization_prerequisite_error : CloudService → Option RotationPolicy → Option String
authorization_prerequisite_error linode policy =
    if is_swap policy then some "rotation_temporary_instance_not_authorized" else none
authorization_prerequisite_error _ policy = none

abbrev pub allows_stop_start : Option Authorization → Bool
allows_stop_start none = false
allows_stop_start (some a) = a.allow_stop_start

abbrev pub device_index_of : Option NetworkInterface → Option ℕ
device_index_of none = none
device_index_of (some i) = i.device_index

abbrev pub primary_addresses_of : Option NetworkInterface → List String
primary_addresses_of none = []
primary_addresses_of (some i) = i.primary_addresses

abbrev pub is_not_false : Option Bool → Bool
is_not_false (some false) = false
is_not_false _ = true

abbrev pub is_false : Option Bool → Bool
is_false value = not (is_not_false value)

-- `manualRotationServicePrerequisiteError`, on what it is given of the context.
abbrev pub manual_service_error : RotationContext → SlotAddress → CloudService → Option String
manual_service_error c a ec2 =
    let allocated = is_present a.remote_allocation_id in
    let primary = includes (primary_addresses_of c.iface) a.address in
    refuse (not allocated && not primary) "rotation_capability_unavailable" (
      refuse (allocated && not primary && not (is_some a.private_address))
        "rotation_capability_unavailable"
        (refuse (not allocated && not (is_first_device (device_index_of c.iface)))
          "rotation_capability_unavailable" none))
manual_service_error c a lightsail =
    refuse (is_not_false c.instance_.ipv6_only) "rotation_capability_unavailable" none
manual_service_error c a azure_vm = none
manual_service_error c a linode =
    refuse (not (allows_stop_start c.authorization)) "rotation_stop_start_not_authorized" none

abbrev pub private_ipv4_error : SlotAddress → Option String → Option String
private_ipv4_error a next =
    refuse (is_scope a.aws_address_scope "private" || has_private_octets a.address)
      "rotation_private_ipv4_unsupported" next

abbrev pub is_managed : Option Authorization → Bool
is_managed none = false
is_managed (some a) = a.managed

abbrev pub allows_family : AddressFamily → Option Authorization → Bool
allows_family family none = false
allows_family v4 (some a) = a.allow_ipv4_rotation
allows_family v6 (some a) = a.allow_ipv6_rotation

abbrev pub is_enabled : Option RotationPolicy → Bool
is_enabled none = false
is_enabled (some policy) = policy.enabled

abbrev pub excludes : Option (List String) → String → Bool
excludes none region = false
excludes (some regions) region = not (includes regions region)

abbrev pub is_in_inventory : Option SlotAddress → Bool
is_in_inventory none = false
is_in_inventory (some a) = a.inventory_present

abbrev pub is_scanned : Option NetworkInterface → ℕ → Bool
is_scanned none generation = false
is_scanned (some i) generation = i.scan_generation == generation

unfoldable pub rotation_authorization_error : RotationContext → CloudRotationTrigger → Option String
rotation_authorization_error c trigger = refuse c.lifecycle_blocked "instance_lifecycle_busy" (
    refuse
      (not c.account.enabled
        || not (is_present c.account.external_account_id)
        || not (is_managed c.authorization))
      "authorization_revoked"
      (refuse
        ((is_health trigger && not (is_enabled c.policy))
          || not (allows_family c.slot.family c.authorization))
        "family_disabled"
        (refuse (not c.scope || excludes c.account.regions c.instance_.region) "region_excluded" (
          refuse
            (not (is_in_inventory c.address)
              || is_false c.instance_.present
              || not (is_scanned c.iface c.instance_.scan_generation))
            "resource_not_found"
            (refuse c.conflicting_manager "conflicting_manager"
              (authorization_prerequisite_error c.instance_.service c.policy))))))

abbrev pub has_other_candidate : AddressSlot → Bool
has_other_candidate slot =
    is_present slot.candidate_address_id
    && not (same_id slot.candidate_address_id slot.current_address_id)

-- `isIP` of the platform.
module _ (is_ip : String → ℕ) where
  abbrev pub is_public_ipv4 : AddressSlot → SlotAddress → Bool
  is_public_ipv4 slot a =
      not (is_v6 slot.family) && same_id slot.current_address_id (some a.id) && is_ip a.address == 4

  -- The checks on the address of the slot, and those that follow on it.
  abbrev pub public_ipv4_error :
      RotationContext → (SlotAddress → Option String) → Option SlotAddress → Option String
  public_ipv4_error c next none = some "rotation_public_ipv4_required"
  public_ipv4_error c next (some a) =
      refuse (not (is_public_ipv4 c.slot a)) "rotation_public_ipv4_required"
        (private_ipv4_error a (next a))

  abbrev pub unsupported_error :
      RotationContext → CloudRotationTrigger → Option String → Option String
  unsupported_error c trigger next =
      refuse (not (supports_rotation_trigger c.account.provider c.instance_.service trigger))
        "rotation_provider_service_unsupported" next

  unfoldable pub scheduled_rotation_prerequisite_error : RotationContext → Option String
  scheduled_rotation_prerequisite_error c =
      refuse (has_other_candidate c.slot) "rotation_candidate_exists"
        (public_ipv4_error c (λ a. unsupported_error c scheduled none) c.address)

  unfoldable pub manual_rotation_capability_error : RotationContext → Option String
  manual_rotation_capability_error c =
      unsupported_error c manual
        (public_ipv4_error c (λ a. manual_service_error c a c.instance_.service) c.address)
