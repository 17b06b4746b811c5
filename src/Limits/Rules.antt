-- ===== src/Limits/Rules.antt =====
-- The actions of each service with the vendor's operation that they call, and the limits on these.
use master_dns.Common.{
  ℕ, ◌*◌, max, not, ◌||◌, String, List, [], ◌∷◌, ◌++◌, map, filter, Result, err, ok, ◌>>=◌, ◌>>◌,
  throw_if, ltb, if◌then◌else◌,
}
use master_dns.Common.Text.{str_eq, includes, utf16, starts_with, ends_with}
use Prim.Native.String.{◌++◌ as concat}

pub data CloudService : Type 0 where
  ec2 lightsail azure_vm linode : CloudService

pub data LimitError : Type 0 where
  unsupported_rotation_action bad_percent : LimitError
  invalid_rotation_reservation_step rotation_limit_too_low : LimitError
  cloud_account_not_found cloud_service_mismatch cloud_account_identity_missing : LimitError

pub data Scope : Type 0 where
  region global : Scope

-- Amounts are in units of 1 / 100,000 of a write: a second refills `refill` writes of which a
-- policy grants `percent` of 100, and a millisecond therefore `refill * percent` units.
pub data RuleKind : Type 0 where
  token_bucket : (units_per_ms : ℕ) → RuleKind
  sliding_window : (window_seconds : ℕ) → RuleKind

pub record Rule : Type 0 where
  pub id : String
  pub scope : Scope
  pub operations : List String
  pub kind : RuleKind
  pub official_capacity : ℕ
  pub capacity : ℕ

abbrev pub write_units : ℕ
write_units = 100000

abbrev pub Action : Type 0
Action = String × String

abbrev pub actions : CloudService → List Action
actions ec2 =
    ("ec2.auto-ipv4.disable", "ModifyNetworkInterfaceAttribute")
    ∷ ("ec2.auto-ipv4.enable", "ModifyNetworkInterfaceAttribute")
    ∷ ("ec2.eip.allocate", "AllocateAddress")
    ∷ ("ec2.eip.associate", "AssociateAddress")
    ∷ ("ec2.eip.release", "ReleaseAddress")
    ∷ ("ec2.ipv6.assign", "AssignIpv6Addresses")
    ∷ ("ec2.ipv6.unassign", "UnassignIpv6Addresses")
    ∷ ("ec2.instance.start", "StartInstances")
    ∷ ("ec2.instance.stop", "StopInstances")
    ∷ ("ec2.instance.delete", "TerminateInstances")
    ∷ []
actions lightsail =
    ("lightsail.static-ip.allocate", "AllocateStaticIp")
    ∷ ("lightsail.static-ip.detach", "DetachStaticIp")
    ∷ ("lightsail.static-ip.attach", "AttachStaticIp")
    ∷ ("lightsail.static-ip.release", "ReleaseStaticIp")
    ∷ ("lightsail.ipv6.disable", "SetIpAddressType")
    ∷ ("lightsail.ipv6.enable", "SetIpAddressType")
    ∷ ("lightsail.instance.start", "StartInstance")
    ∷ ("lightsail.instance.stop", "StopInstance")
    ∷ ("lightsail.instance.delete", "DeleteInstance")
    ∷ []
actions azure_vm =
    ("azure.public-ip.allocate", "PublicIPAddresses.CreateOrUpdate")
    ∷ ("azure.public-ip.associate", "NetworkInterfaces.CreateOrUpdate")
    ∷ ("azure.public-ip.delete", "PublicIPAddresses.Delete")
    ∷ ("azure_vm.instance.start", "VirtualMachines.Start")
    ∷ ("azure_vm.instance.stop", "VirtualMachines.Deallocate")
    ∷ ("azure_vm.instance.delete", "VirtualMachines.Delete")
    ∷ []
actions linode =
    ("linode.ipv4.allocate", "InstanceIP.Allocate")
    ∷ ("linode.instance.reboot", "Instance.Reboot")
    ∷ ("linode.ipv4.release", "InstanceIP.Delete")
    ∷ ("linode.instance.start", "Instance.Boot")
    ∷ ("linode.instance.stop", "Instance.Shutdown")
    ∷ ("linode.instance.delete", "Instance.Delete")
    ∷ ("linode.swap.allocate", "Instance.Create")
    ∷ ("linode.ipv4.swap", "IP.Assign")
    ∷ ("linode.swap.delete", "Instance.Delete")
    ∷ []

abbrev pub find_operation : String → List Action → Result LimitError String
find_operation action [] = err unsupported_rotation_action
find_operation action ((name, operation) ∷ rest) =
    let later = find_operation action rest in if str_eq name action then ok operation else later

unfoldable pub cloud_rotation_operation : CloudService → String → Result LimitError String
cloud_rotation_operation service action = find_operation action (actions service)

-- `[...new Set(…)]`: the first of each, in order.
abbrev pub distinct_from : List String → List String → List String
distinct_from seen [] = []
distinct_from seen (x ∷ xs) =
    let rest = distinct_from (x ∷ seen) xs in
    let others = distinct_from seen xs in if includes seen x then others else x ∷ rest

abbrev pub operations_of : CloudService → List String
operations_of service = distinct_from [] (map (λ a. a.1) (actions service))

-- `Math.floor(capacity * percent)` in floating point, where `percent` is a quotient by 100.
module _ (floor_share : (capacity percent : ℕ) → ℕ) where
  abbrev pub bucket : ℕ → String → List String → (capacity refill : ℕ) → Rule
  bucket percent id operations capacity refill = record {
    id = id;
    scope = region;
    operations = operations;
    kind = token_bucket (refill * percent);
    official_capacity = capacity;
    capacity = max 1 (floor_share capacity percent);
  }

  abbrev pub window : ℕ → String → List String → (capacity seconds : ℕ) → Scope → Rule
  window percent id operations capacity seconds scope = record {
    id = id;
    scope = scope;
    operations = operations;
    kind = sliding_window seconds;
    official_capacity = capacity;
    capacity = max 1 (floor_share capacity percent);
  }

  abbrev pub ec2_rule : ℕ → String → Rule
  ec2_rule percent operation =
      bucket percent (concat "ec2." operation) (operation ∷ [])
        (if str_eq operation "StartInstances"
          then 5
          else if includes
              ("ModifyNetworkInterfaceAttribute" ∷ "AssignIpv6Addresses" ∷ "TerminateInstances"
                ∷ [])
              operation
          then 100
          else 50)
        (if str_eq operation "StartInstances" then 2 else 5)

  abbrev pub lightsail_rule : ℕ → String → Rule
  lightsail_rule percent operation =
      bucket percent (concat "lightsail." operation) (operation ∷ [])
        (if includes ("StartInstance" ∷ "StopInstance" ∷ "DeleteInstance" ∷ []) operation
          then 20
          else 1)
        (if includes ("StartInstance" ∷ "StopInstance" ∷ []) operation then 10 else 1)

  abbrev pub static_ip_operations : List String
  static_ip_operations =
      filter
        (λ operation.
          includes
            ("AllocateStaticIp" ∷ "AttachStaticIp" ∷ "DetachStaticIp" ∷ "ReleaseStaticIp" ∷ [])
            operation)
        (operations_of lightsail)

  abbrev pub rules_of : CloudService → ℕ → List Rule
  rules_of ec2 percent = map (ec2_rule percent) (operations_of ec2)
  rules_of lightsail percent =
      map (lightsail_rule percent) (operations_of lightsail)
      ++ (window percent "lightsail.static-ip.hour" static_ip_operations 50 3600 global
          ∷ window percent "lightsail.static-ip.day" static_ip_operations 500 86400 global
          ∷ [])
  rules_of azure_vm percent =
      bucket percent "azure.arm.writes"
        (filter (λ o. not (ends_with (utf16 o) (utf16 ".Delete"))) (operations_of azure_vm)) 200 10
      ∷ bucket percent "azure.arm.deletes"
          (filter (λ o. ends_with (utf16 o) (utf16 ".Delete")) (operations_of azure_vm)) 200 10
      ∷ window percent "azure.network.mutations"
          (filter (λ o. not (starts_with (utf16 o) (utf16 "VirtualMachines.")))
            (operations_of azure_vm))
          1000 300 region
      ∷ []
  rules_of linode percent =
      window percent "linode.mutations" (operations_of linode) 1600 60 global ∷ []

  unfoldable pub cloud_rotation_limit_rules :
      CloudService → (percent : ℕ) → Result LimitError (List Rule)
  cloud_rotation_limit_rules service percent =
      throw_if (ltb percent 1 || ltb 100 percent) bad_percent >> ok (rules_of service percent)

  unfoldable pub cloud_rotation_rules_for_action :
      CloudService → String → (percent : ℕ) → Result LimitError (List Rule)
  cloud_rotation_rules_for_action service action percent = do
    operation ← cloud_rotation_operation service action
    rules ← cloud_rotation_limit_rules service percent
    ok (filter (λ rule. includes rule.operations operation) rules)
