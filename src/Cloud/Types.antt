-- ===== src/Cloud/Types.antt =====
-- The references, inventories and errors of packages/contracts/src/cloud.ts and
-- packages/cloud-providers/src/provider.ts and errors.ts.
use master_dns.Common.{ℕ, Bool, true, false, not, ◌&&◌, Option, none, some, List, String, find}
use master_dns.Common.Text.{str_eq}
use master_dns.Strategy.Types.{AddressFamily, v4, v6}
use master_dns.Strategy.Candidates.{same_family}

pub data CloudService : Type 0 where
  ec2 lightsail azure_vm linode : CloudService

abbrev pub service_text : CloudService → String
service_text ec2 = "ec2"
service_text lightsail = "lightsail"
service_text azure_vm = "azure_vm"
service_text linode = "linode"

abbrev pub same_service : CloudService → CloudService → Bool
same_service ec2 ec2 = true
same_service lightsail lightsail = true
same_service azure_vm azure_vm = true
same_service linode linode = true
same_service _ _ = false

abbrev pub family_number : AddressFamily → ℕ
family_number v4 = 4
family_number v6 = 6

abbrev pub is_v6 : AddressFamily → Bool
is_v6 v4 = false
is_v6 v6 = true

pub record CloudRef : Type 0 where
  pub account_id : String
  pub service : CloudService
  pub region : String
  pub instance_id : String

pub record SlotRef : Type 0 where
  pub ref : CloudRef
  pub slot_id : String
  pub interface_id : String
  pub address : String
  pub family : AddressFamily

-- Of the metadata of an address, the AWS scope.
pub record CloudAddress : Type 0 where
  pub address : String
  pub family : AddressFamily
  pub primary : Bool
  pub allocation_id : Option String
  pub private_address : Option String
  pub resource_id : Option String
  pub aws_address_scope : Option String

pub record CloudInterface : Type 0 where
  pub id : String
  pub device_index : Option ℕ
  pub addresses : List CloudAddress

pub record CloudInventory : Type 0 where
  pub ref : CloudRef
  pub native_name : Option String
  pub ipv6_only : Option Bool
  pub interfaces : List CloudInterface

pub data CloudErrorCode : Type 0 where
  rotation_unsupported invalid_rotation_step resource_ownership_ambiguous cleanup_not_authorized
        cloud_operation_failed cloud_writes_not_enabled credentials_expired invalid_credentials
        invalid_cursor permission_denied quota_exceeded rate_limited remote_identity_changed
        resource_not_found temporary_cloud_error unknown_cloud_error :
      CloudErrorCode

pub record CloudError : Type 0 where
  pub code : CloudErrorCode
  pub retryable : Bool
  pub reason : Option String

-- A text that is there and not empty, as a condition reads it.
abbrev pub is_present : Option String → Bool
is_present none = false
is_present (some text) = not (str_eq text "")

abbrev pub find_interface : SlotRef → CloudInventory → Option CloudInterface
find_interface slot inventory = find (λ i. str_eq i.id slot.interface_id) inventory.interfaces

abbrev pub find_in : SlotRef → CloudInterface → Option CloudAddress
find_in slot i =
    find (λ a. str_eq a.address slot.address && same_family a.family slot.family) i.addresses
