-- ===== src/Ddns/Resolving.antt =====
-- What a heartbeat reports of each family.
use master_dns.Common.{
  ℕ, ◌≡◌, refl, Option, none, some, String, List, [], ◌∷◌, ◌==◌, ◌&&◌, false, if◌then◌else◌,
  is_some, inl, inr, Bool-cases, arith, count_if, ◌≤◌,
}
use master_dns.Common.Text.{str_eq}
use master_dns.Strategy.Types.{AddressFamily, v4, v6}
use master_dns.Strategy.Candidates.{same_family}
use master_dns.Ddns.Reports.{
  HeartbeatAddresses, DdnsAddressUpdate, family_of, explicit_updates, infer_address,
  resolve_ddns_address_updates,
}

-- The address that the updates give a family, if they have one for it.
abbrev pub update_for : AddressFamily → List DdnsAddressUpdate → Option (Option String)
update_for f [] = none
update_for f (u ∷ us) =
    let rest = update_for f us in if same_family u.family f then some u.address else rest

-- The property of the body that speaks of a family.
abbrev pub field_for : AddressFamily → HeartbeatAddresses → Option (Option String)
field_for v4 input = input.ipv4_field
field_for v6 input = input.ipv6_field

abbrev pub with_default : Option (Option String) → String → Option (Option String)
with_default none address = some (some address)
with_default (some none) address = some (some address)
with_default (some (some x)) address = some (some x)

abbrev pub count_family : AddressFamily → List DdnsAddressUpdate → ℕ
count_family f us = count_if (λ u. same_family u.family f) us

update_for-infer :
    (f g : AddressFamily) (a : String) (us : List DdnsAddressUpdate)
    → update_for f (infer_address g a us)
      ≡ (if same_family f g then with_default (update_for f us) a else update_for f us)
unfolding infer_address
update_for-infer v4 v4 a [] = refl
update_for-infer v4 v6 a [] = refl
update_for-infer v6 v4 a [] = refl
update_for-infer v6 v6 a [] = refl
update_for-infer f g a (u ∷ us) = ground (arith, update_for-infer f g a us)

update_for-explicit :
    (f : AddressFamily) (input : HeartbeatAddresses)
    → update_for f (explicit_updates input) ≡ field_for f input
update_for-explicit f input = ground arith

count_family-explicit :
    (f : AddressFamily) (input : HeartbeatAddresses) → count_family f (explicit_updates input) ≤ 1
count_family-explicit f input = ground arith

count_family-infer :
    (f g : AddressFamily) (a : String) (us : List DdnsAddressUpdate)
    → count_family f (infer_address g a us)
      ≡ (if same_family f g && (count_family f us == 0) then 1 else count_family f us)
unfolding infer_address
count_family-infer f g a [] = ground arith
count_family-infer f g a (u ∷ us) = elim (Bool-cases (same_family u.family g)) [
  | inl e ↦ elim (Bool-cases (is_some u.address)) [
    | inl s ↦ rw (e, s) (ground arith)
    | inr s ↦ rw (e, s) (ground arith)
  ]
  | inr e ↦ rw e (ground (arith, count_family-infer f g a us))
]

-- A heartbeat updates each family at most once. Without an inferred source address each family
-- is updated as the body says. With one, an address that the body names wins; the inferred
-- address replaces null or an absent property of its own family, and the other family is updated
-- as the body says.
pub resolve_ddns_address_updates-merges :
    (f : AddressFamily) (input : HeartbeatAddresses) (a : String)
    → str_eq a "" ≡ false
    → (update_for f (resolve_ddns_address_updates input none) ≡ field_for f input)
      × (update_for f (resolve_ddns_address_updates input (some a)) ≡ (
          if same_family f (family_of a)
          then with_default (field_for f input) a
          else field_for f input))
      × (count_family f (resolve_ddns_address_updates input none) ≤ 1)
      × (count_family f (resolve_ddns_address_updates input (some a)) ≤ 1)
unfolding resolve_ddns_address_updates
resolve_ddns_address_updates-merges f input a e =
    let explicit = update_for-explicit f input in
    let once = count_family-explicit f input in
    (
      explicit,
      rw e (rw (update_for-infer f (family_of a) a (explicit_updates input), explicit) refl),
      once,
      rw (e, count_family-infer f (family_of a) a (explicit_updates input)) (ground arith),
    )
