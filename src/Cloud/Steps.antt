-- ===== src/Cloud/Steps.antt =====
-- `rotationArguments` and `makeRotationStep`.
use master_dns.Common.{
  ℕ, Bool, true, false, not, ◌&&◌, ◌||◌, Option, none, List, [], ◌∷◌, String, all, length, ltb, leb,
  ◌==◌, Result, ok, ◌>>=◌, ◌>>◌, throw_if,
}
use master_dns.Common.Text.{str_eq, utf16, ends_with}
use master_dns.Cloud.Types.{
  service_text, same_service, SlotRef, CloudInventory, CloudError, invalid_rotation_step,
}

pub data RotationAction : Type 0 where
  ec2_auto_ipv4_disable ec2_auto_ipv4_enable ec2_eip_allocate ec2_eip_associate ec2_eip_release
        ec2_ipv6_assign ec2_ipv6_unassign lightsail_static_ip_allocate lightsail_static_ip_detach
        lightsail_static_ip_attach lightsail_static_ip_release lightsail_ipv6_disable
        lightsail_ipv6_enable :
      RotationAction

abbrev pub action_text : RotationAction → String
action_text ec2_auto_ipv4_disable = "ec2.auto-ipv4.disable"
action_text ec2_auto_ipv4_enable = "ec2.auto-ipv4.enable"
action_text ec2_eip_allocate = "ec2.eip.allocate"
action_text ec2_eip_associate = "ec2.eip.associate"
action_text ec2_eip_release = "ec2.eip.release"
action_text ec2_ipv6_assign = "ec2.ipv6.assign"
action_text ec2_ipv6_unassign = "ec2.ipv6.unassign"
action_text lightsail_static_ip_allocate = "lightsail.static-ip.allocate"
action_text lightsail_static_ip_detach = "lightsail.static-ip.detach"
action_text lightsail_static_ip_attach = "lightsail.static-ip.attach"
action_text lightsail_static_ip_release = "lightsail.static-ip.release"
action_text lightsail_ipv6_disable = "lightsail.ipv6.disable"
action_text lightsail_ipv6_enable = "lightsail.ipv6.enable"

pub data StepPhase : Type 0 where
  rotation post_publish_cleanup : StepPhase

pub record CleanupOwnershipSnapshot : Type 0 where
  pub account_id : String
  pub instance_id : String
  pub interface_id : String
  pub allocation_id : String
  pub address : String
  pub resource_id : Option String

pub record RotationStepArguments : Type 0 where
  pub slot : SlotRef
  pub attempt_id : String
  pub before : CloudInventory
  pub phase : StepPhase
  pub release_authorized : Bool
  pub published_address : Option String
  pub ownership_attempt_id : Option String
  pub ownership_snapshot : Option CleanupOwnershipSnapshot

-- The parts of the text `attemptId:index:action`.
pub record StepId : Type 0 where
  pub attempt_id : String
  pub index : ℕ
  pub action : String

pub record CloudStep : Type 0 where
  pub id : StepId
  pub action : RotationAction
  pub resource_key : List String
  pub arguments : RotationStepArguments
  pub destructive : Bool

abbrev pub invalid_step : CloudError
invalid_step = record { code = invalid_rotation_step; retryable = false; reason = none }

abbrev pub within : ℕ → ℕ → ℕ → Bool
within low high unit = leb low unit && leb unit high

-- A code unit of a Latin letter or a digit.
abbrev pub is_alphanumeric : ℕ → Bool
is_alphanumeric unit = within 65 90 unit || within 97 122 unit || within 48 57 unit

abbrev pub is_word : ℕ → Bool
is_word unit = is_alphanumeric unit || unit == 95 || unit == 45

abbrev pub ends_alphanumeric : List ℕ → Bool
ends_alphanumeric [] = false
ends_alphanumeric (unit ∷ []) = is_alphanumeric unit
ends_alphanumeric (unit ∷ units) = ends_alphanumeric units

abbrev pub matches_rest : List ℕ → Bool
matches_rest [] = true
matches_rest units = all is_word units && ltb (length units) 80 && ends_alphanumeric units

abbrev pub matches_id : List ℕ → Bool
matches_id [] = false
matches_id (unit ∷ units) = is_alphanumeric unit && matches_rest units

abbrev pub is_filled : String → Bool
is_filled text = not (str_eq text "")

abbrev pub has_texts : SlotRef → Bool
has_texts slot =
    is_filled slot.ref.account_id
    && is_filled slot.ref.instance_id
    && is_filled slot.ref.region
    && is_filled slot.slot_id
    && is_filled slot.interface_id
    && is_filled slot.address

abbrev pub is_of : SlotRef → CloudInventory → Bool
is_of slot inventory =
    str_eq slot.ref.account_id inventory.ref.account_id
    && str_eq slot.ref.instance_id inventory.ref.instance_id
    && str_eq slot.ref.region inventory.ref.region
    && same_service slot.ref.service inventory.ref.service

unfoldable pub rotation_arguments : RotationStepArguments → Result CloudError RotationStepArguments
rotation_arguments a = do
  throw_if (not (matches_id (utf16 a.attempt_id))) invalid_step
  throw_if (not (has_texts a.slot)) invalid_step
  throw_if (not (is_of a.slot a.before)) invalid_step
  ok a

unfoldable pub is_destructive : RotationAction → Bool
is_destructive action =
    not (ends_with (utf16 (action_text action)) (utf16 "allocate"))
    && not (str_eq (action_text action) "ec2.ipv6.assign")

abbrev pub resource_key_of : SlotRef → List String
resource_key_of slot =
    slot.ref.account_id
    ∷ service_text slot.ref.service
    ∷ slot.ref.region
    ∷ slot.ref.instance_id
    ∷ slot.interface_id
    ∷ slot.slot_id
    ∷ []

abbrev pub new_step : RotationAction → RotationStepArguments → ℕ → CloudStep
new_step action args index = record {
  id = record { attempt_id = args.attempt_id; index = index; action = action_text action };
  action = action;
  resource_key = resource_key_of args.slot;
  arguments = args;
  destructive = is_destructive action;
}

unfoldable pub make_rotation_step :
    RotationAction → RotationStepArguments → ℕ → Result CloudError CloudStep
make_rotation_step action args index = do
  _ ← rotation_arguments args
  ok (new_step action args index)
