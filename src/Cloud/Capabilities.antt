-- ===== src/Cloud/Capabilities.antt =====
-- `awsCapabilities`.
use master_dns.Common.{
  ℕ, ◌+◌, ◌*◌, ◌-◌, Bool, true, false, not, ◌&&◌, ◌||◌, Option, none, some, List, [], ◌∷◌, String,
  leb, ◌==◌, if◌then◌else◌,
}
use master_dns.Common.Text.{str_eq, utf16}
use master_dns.Cloud.Types.{
  CloudService, ec2, lightsail, same_service, family_number, is_v6, SlotRef, CloudAddress,
  CloudInterface, CloudInventory, is_present, find_interface, find_in,
}
use master_dns.Cloud.Steps.{is_of}

-- Without the fields that are constant.
pub record Capability : Type 0 where
  pub available : Bool
  pub reason : Option String
  pub requires_stop : Bool
  pub releases_old_address : Bool

abbrev pub unavailable : String → Capability
unavailable reason = record {
  available = false;
  reason = some reason;
  requires_stop = false;
  releases_old_address = false;
}

-- The number before the next dot and what follows, for decimal digits.
abbrev pub read_octet : ℕ → List ℕ → ℕ × List ℕ
read_octet octet [] = (octet, [])
read_octet octet (unit ∷ units) =
    let rest = read_octet (octet * 10 + (unit - 48)) units in
    if unit == 46 then (octet, units) else rest

abbrev pub is_private : ℕ → ℕ → Bool
is_private first second =
    first == 10
    || first == 127
    || first == 0
    || leb 224 first
    || (first == 172 && leb 16 second && leb second 31)
    || (first == 192 && second == 168)
    || (first == 169 && second == 254)
    || (first == 100 && leb 64 second && leb second 127)

abbrev pub has_private_octets : String → Bool
has_private_octets address =
    let first = read_octet 0 (utf16 address) in
    let second = read_octet 0 first.1 in is_private first.0 second.0

abbrev pub is_scope : Option String → String → Bool
is_scope none scope = false
is_scope (some own) scope = str_eq own scope

abbrev pub is_first_device : Option ℕ → Bool
is_first_device none = false
is_first_device (some index) = index == 0

abbrev pub is_aws : CloudService → Bool
is_aws service = same_service service ec2 || same_service service lightsail

abbrev pub refuse : Bool → String → Option String → Option String
refuse true reason next = some reason
refuse false reason next = next

-- `isIP` of the platform.
module _ (is_ip : String → ℕ) where
  -- The reasons of the address of the slot.
  abbrev pub address_refusal :
      SlotRef → CloudInventory → CloudInterface → CloudAddress → Option String
  address_refusal slot inventory i a =
      let of_ec2 = same_service inventory.ref.service ec2 in
      let of_lightsail = same_service inventory.ref.service lightsail in
      let of_v4 = not (is_v6 slot.family) in
      refuse (not (is_ip slot.address == family_number slot.family)) "invalid_address" (
        refuse (of_v4 && is_scope a.aws_address_scope "private") "private_ipv4_unsupported" (
          refuse (of_v4 && has_private_octets slot.address) "private_ipv4_unsupported" (
            refuse (of_v4 && of_ec2 && not (is_present a.allocation_id) && not a.primary)
              "secondary_interface_unsupported"
              (refuse
                (of_v4
                  && of_ec2
                  && is_present a.allocation_id
                  && not a.primary
                  && not (is_present a.private_address))
                "private_address_unknown"
                (refuse (of_lightsail && is_undecided inventory.ipv6_only)
                  "lightsail_address_type_unknown"
                  (refuse (of_lightsail && is_set inventory.ipv6_only) "lightsail_ipv6_only" (
                    refuse
                      (of_ec2
                        && of_v4
                        && not (is_present a.allocation_id)
                        && not (is_first_device i.device_index))
                      "secondary_interface_unsupported"
                      (refuse (of_ec2 && is_v6 slot.family && a.primary) "primary_ipv6_immutable"
                        none))))))))
    where
      is_undecided : Option Bool → Bool
      is_undecided none = true
      is_undecided (some only) = false

      is_set : Option Bool → Bool
      is_set none = false
      is_set (some only) = only

  abbrev pub capability_of : SlotRef → CloudInventory → CloudAddress → Option String → Capability
  capability_of slot inventory a (some reason) = unavailable reason
  capability_of slot inventory a none = record {
    available = true;
    reason = none;
    requires_stop = false;
    releases_old_address =
        (not (is_v6 slot.family) && not (is_present a.allocation_id))
        || (same_service inventory.ref.service lightsail && is_v6 slot.family);
  }

  abbrev pub address_capability :
      SlotRef → CloudInventory → CloudInterface → Option CloudAddress → Capability
  address_capability slot inventory i none = unavailable "address_not_found"
  address_capability slot inventory i (some a) =
      capability_of slot inventory a (address_refusal slot inventory i a)

  abbrev pub interface_capability : SlotRef → CloudInventory → Option CloudInterface → Capability
  interface_capability slot inventory none = unavailable "interface_not_found"
  interface_capability slot inventory (some i) =
      address_capability slot inventory i (find_in slot i)

  unfoldable pub aws_capabilities : SlotRef → CloudInventory → Capability
  aws_capabilities slot inventory =
      if not (is_aws inventory.ref.service)
      then unavailable "service_unavailable"
      else if not (is_of slot inventory)
      then unavailable "inventory_mismatch"
      else interface_capability slot inventory (find_interface slot inventory)
