-- ===== src/Ddns/Reports.antt =====
-- ddns-policy.ts: which addresses a heartbeat reports.
use master_dns.Common.{
  Option, none, some, String, List, [], ◌∷◌, ◌++◌, Bool, ◌==◌, any, if◌then◌else◌, is_some,
}
use master_dns.Common.Text.{str_eq, utf16}
use master_dns.Strategy.Types.{AddressFamily, v4, v6}
use master_dns.Strategy.Candidates.{same_family}

-- A property of the body: none where it is absent, and `some none` for null or undefined.
pub record HeartbeatAddresses : Type 0 where
  pub ipv4_field : Option (Option String)
  pub ipv6_field : Option (Option String)

pub record DdnsAddressUpdate : Type 0 where
  pub family : AddressFamily
  pub address : Option String

-- `text.includes(":")`
abbrev pub has_colon : String → Bool
has_colon s = any (λ u. u == 58) (utf16 s)

abbrev pub family_of : String → AddressFamily
family_of address = if has_colon address then v6 else v4

abbrev pub explicit_update : AddressFamily → Option (Option String) → List DdnsAddressUpdate
explicit_update f none = []
explicit_update f (some address) = record { family = f; address = address } ∷ []

abbrev pub explicit_updates : HeartbeatAddresses → List DdnsAddressUpdate
explicit_updates input = explicit_update v4 input.ipv4_field ++ explicit_update v6 input.ipv6_field

-- Writes the address into the first update of the family that has none, or appends an update
-- where the family has none.
unfoldable pub infer_address :
    AddressFamily → String → List DdnsAddressUpdate → List DdnsAddressUpdate
infer_address f address [] = record { family = f; address = some address } ∷ []
infer_address f address (u ∷ us) =
    let rest = infer_address f address us in
    if same_family u.family f
    then (if is_some u.address then u else record { family = u.family; address = some address })
      ∷ us
    else u ∷ rest

unfoldable pub resolve_ddns_address_updates :
    HeartbeatAddresses → (inferred_address : Option String) → List DdnsAddressUpdate
resolve_ddns_address_updates input none = explicit_updates input
resolve_ddns_address_updates input (some address) =
    if str_eq address ""
    then explicit_updates input
    else infer_address (family_of address) address (explicit_updates input)
