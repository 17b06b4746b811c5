-- ===== src/Pools/Confirmed.antt =====
-- A pool that is reported healthy counts on no address that the cloud inventory does not confirm.
use master_dns.Common.{
  ◌≡◌, refl, ap, ◌∙◌, inl, inr, subst, ℕ, true, false, Option, none, some, List, [], ◌∷◌, map,
  String, All, All-map, All-filter, find-All, find_holds, filter_holds, All-zip, sym, ◌&&◌, filter,
  find, Bool-cases, arith,
}
use master_dns.Common.Text.{str_eq, str_eq_iff}
use mathlib.Core.List.{Memᴰ}
use master_dns.Strategy.Types.{AddressFamily, v4, v6}
use master_dns.Strategy.Candidates.{same_family}
use master_dns.Strategy.Sorting.{All-mem}
use master_dns.Health.{healthy}
use master_dns.Pools.Projection.{
  PoolEndpoint, PoolAddress, PoolBinding, is_missing, family_of, has_family, enabled, addresses_of,
}
use master_dns.Pools.Rows.{
  AddressRow, LinkRow, PoolRows, CloudTarget, PoolRow, is_current_address, observes, target_of,
  find_link, with_pool_address_availability, current_rows, pool_input, refresh_pool_health,
}
use master_dns.Pools.Healthy.{
  HasDistinctIds, Serves, no_candidate, by_address, by_binding, IsServed,
  project_pool_health-AreServed,
}

is_current-holds :
    (current : Option String) (address : String)
    → is_current_address current address ≡ true
    → current ≡ some address
is_current-holds none address h = cc
is_current-holds (some c) address h = ap some ((str_eq_iff c address).0 h)

same_family-holds : (f g : AddressFamily) → same_family f g ≡ true → f ≡ g
same_family-holds v4 v4 h = refl
same_family-holds v6 v6 h = refl
same_family-holds v4 v6 h = cc
same_family-holds v6 v4 h = cc

module _ (targets : String → Option CloudTarget) where
  -- An address that is no cloud address, or that the slot which is linked to the endpoint for its
  -- family was seen with.
  pub data IsConfirmed (links : List LinkRow) (row : AddressRow) : Type 0 where
    not_cloud : ¬ (row.source ≡ "cloud") → IsConfirmed links row
    observed :
        (link : LinkRow) (target : CloudTarget)
        → Memᴰ link links
        → link.endpoint_id ≡ row.endpoint_id
        → link.family ≡ row.family
        → targets link.slot_id ≡ some target
        → target.current_address_observed ≡ true
        → target.current_address ≡ some row.address
        → IsConfirmed links row

  seen-IsConfirmed :
      (links : List LinkRow) (row : AddressRow) (link : LinkRow) (target : Option CloudTarget)
      → find_link targets links row ≡ some link
      → targets link.slot_id ≡ target
      → observes target row.address ≡ true
      → IsConfirmed links row
  seen-IsConfirmed links row link none there found h = cc
  seen-IsConfirmed links row link (some t) there found h =
      let holds =
        find_holds (λ l. str_eq l.endpoint_id row.endpoint_id && same_family l.family row.family)
          links there in
      observed link t (find-All (λ l. Memᴰ l links) _ links (All-mem links) there)
        ((str_eq_iff link.endpoint_id row.endpoint_id).0 (ground arith))
        (same_family-holds link.family row.family (ground arith)) found (ground arith)
        (is_current-holds t.current_address row.address (ground arith))

  observes-IsConfirmed :
      (links : List LinkRow) (row : AddressRow) (link : Option LinkRow)
      → find_link targets links row ≡ link
      → observes (target_of targets link) row.address ≡ true
      → IsConfirmed links row
  observes-IsConfirmed links row none there h = cc
  observes-IsConfirmed links row (some link) there h =
      seen-IsConfirmed links row link (targets link.slot_id) there refl h

  available-IsConfirmed :
      (links : List LinkRow) (row : AddressRow)
      → is_missing (with_pool_address_availability targets links row).available ≡ false
      → IsConfirmed links row
  unfolding with_pool_address_availability
  available-IsConfirmed links row h = elim (Bool-cases (str_eq row.source "cloud")) [
    | inr e ↦ not_cloud (λ same. missing_not ((sym ((str_eq_iff row.source "cloud").1 same)) ∙ e))
    | inl e ↦
        elim (Bool-cases (observes (target_of targets (find_link targets links row)) row.address)) [
          | inl o ↦ observes-IsConfirmed links row (find_link targets links row) refl o
          | inr o ↦ absurd (missing_not (rw (e, o) at h))
        ]
  ]
    where
      missing_not : true ≡ false → ⊥
      missing_not e = cc

  -- An address of the projection comes from a current row of the pool.
  abbrev ComesFrom : PoolRows → (pool_id : String) → PoolAddress → Type 0
  ComesFrom rows pool_id address =
      (row : AddressRow) × Memᴰ row rows.addresses
      × (str_eq row.state "current" ≡ true)
      × (str_eq row.pool_id pool_id ≡ true)
      × (address ≡ with_pool_address_availability targets rows.links row)

  map-ComesFrom :
      (rows : PoolRows) (pool_id : String) (own : List AddressRow)
      → All
          (λ row.
            (Memᴰ row rows.addresses × (str_eq row.state "current" ≡ true))
            × (str_eq row.pool_id pool_id ≡ true))
          own
      → All (ComesFrom rows pool_id) (map (with_pool_address_availability targets rows.links) own)
  map-ComesFrom rows pool_id [] h = tt
  map-ComesFrom rows pool_id (row ∷ own) (((there, current), here), h) =
      ((row, there, current, here, refl), map-ComesFrom rows pool_id own h)

  current-AreRows :
      (rows : PoolRows) (pool_id : String)
      → All
          (λ row.
            (Memᴰ row rows.addresses × (str_eq row.state "current" ≡ true))
            × (str_eq row.pool_id pool_id ≡ true))
          (current_rows targets rows pool_id)
  current-AreRows rows pool_id =
      All-zip _ _ _
        (All-filter _ _ _ (
          All-zip _ _ _ (All-filter _ _ rows.addresses (All-mem rows.addresses))
            (filter_holds (λ row. str_eq row.state "current") rows.addresses)))
        (filter_holds (λ row. str_eq row.pool_id pool_id)
          (filter (λ row. str_eq row.state "current") rows.addresses))

  with_address-keeps :
      (links : List LinkRow) (row : AddressRow)
      → ((with_pool_address_availability targets links row).id ≡ row.id)
        × ((with_pool_address_availability targets links row).endpoint_id ≡ row.endpoint_id)
        × ((with_pool_address_availability targets links row).family ≡ row.family)
  unfolding with_pool_address_availability
  with_address-keeps links row = elim (Bool-cases (str_eq row.source "cloud")) [
    | inl e ↦ rw e (refl, refl, refl)
    | inr e ↦ rw e (refl, refl, refl)
  ]

  module _ (rows : PoolRows) (pool_id : String) where
    -- An endpoint that has no address for the binding, or one of a row that is confirmed.
    pub data IsBacked (binding : PoolBinding) (endpoint : PoolEndpoint) : Type 0 where
      absent :
          find
              (has_family (family_of binding.record_type))
              (addresses_of (pool_input targets rows pool_id) endpoint)
            ≡ none
          → IsBacked binding endpoint
      by_row :
          (row : AddressRow) (address : PoolAddress)
          → Memᴰ row rows.addresses
          → row.state ≡ "current"
          → row.pool_id ≡ pool_id
          → row.endpoint_id ≡ endpoint.id
          → row.family ≡ family_of binding.record_type
          → find
              (has_family (family_of binding.record_type))
              (addresses_of (pool_input targets rows pool_id) endpoint)
            ≡ some address
          → address.id ≡ row.id
          → IsConfirmed rows.links row
          → IsBacked binding endpoint

    found-IsBacked :
        (b : PoolBinding) (e : PoolEndpoint) (a : PoolAddress)
        → find
            (has_family (family_of b.record_type))
            (addresses_of (pool_input targets rows pool_id) e)
          ≡ some a
        → is_missing a.available ≡ false
        → IsBacked b e
    found-IsBacked b e a found there =
        let (row, member, current, here, same) =
          find-All (ComesFrom rows pool_id) (has_family (family_of b.record_type))
            (addresses_of (pool_input targets rows pool_id) e)
            (All-filter (ComesFrom rows pool_id) (λ x. str_eq x.endpoint_id e.id)
              (pool_input targets rows pool_id).addresses
              (map-ComesFrom rows pool_id (current_rows targets rows pool_id)
                (current-AreRows rows pool_id)))
            found in
        let own =
          find-All (λ x. str_eq x.endpoint_id e.id ≡ true) (has_family (family_of b.record_type))
            (addresses_of (pool_input targets rows pool_id) e)
            (filter_holds (λ x. str_eq x.endpoint_id e.id)
              (pool_input targets rows pool_id).addresses)
            found in
        let fitting =
          find_holds (has_family (family_of b.record_type))
            (addresses_of (pool_input targets rows pool_id) e) found in
        let kept = with_address-keeps rows.links row in
        by_row row a member ((str_eq_iff row.state "current").0 current)
          ((str_eq_iff row.pool_id pool_id).0 here)
          (sym (ap (λ x. x.endpoint_id) same ∙ kept.1) ∙ (str_eq_iff a.endpoint_id e.id).0 own)
          (sym (ap (λ x. x.family) same ∙ kept.2)
            ∙ same_family-holds a.family (family_of b.record_type) fitting)
          found (ap (λ x. x.id) same ∙ kept.0)
          (available-IsConfirmed rows.links row
            (subst (λ x. is_missing x.available ≡ false) same there))

    Serves-IsBacked :
        (b : PoolBinding) (e : PoolEndpoint)
        → Serves (pool_input targets rows pool_id) b e
        → IsBacked b e
    Serves-IsBacked b e (no_candidate none_found x) = absent none_found
    Serves-IsBacked b e (by_address a found there o h) = found-IsBacked b e a found there
    Serves-IsBacked b e (by_binding a found there o h) = found-IsBacked b e a found there

    served-IsBacked :
        (b : PoolBinding)
        → IsServed (pool_input targets rows pool_id) b
        → All (IsBacked b) (enabled (pool_input targets rows pool_id))
    served-IsBacked b (some_candidate, served) =
        All-map (Serves (pool_input targets rows pool_id) b) (IsBacked b)
          (enabled (pool_input targets rows pool_id)) (Serves-IsBacked b) served

  -- When the refresh writes that a pool with bindings, of distinct ids, is healthy, each binding has a
  -- candidate among the enabled endpoints; each enabled endpoint is no candidate for the binding or
  -- serves it with an address that is available and healthy by the check that applies; and this address
  -- is that of a current row of the endpoint and the binding's family among the rows read, which is not
  -- from the cloud, or has the address that the cloud inventory observed in the slot which is linked
  -- to the endpoint for the family.
  pub refresh_pool_health-AreBacked :
      (rows : PoolRows) (now : ℕ) (pool : PoolRow)
      → ¬ ((pool_input targets rows pool.id).bindings ≡ [])
      → HasDistinctIds (pool_input targets rows pool.id).bindings
      → (refresh_pool_health targets rows now pool).state ≡ healthy
      → All
          (λ b.
            IsServed (pool_input targets rows pool.id) b
            × All (IsBacked rows pool.id b) (enabled (pool_input targets rows pool.id)))
          (pool_input targets rows pool.id).bindings
  unfolding refresh_pool_health
  refresh_pool_health-AreBacked rows now pool ne distinct h =
      All-map (IsServed (pool_input targets rows pool.id))
        (λ b.
          IsServed (pool_input targets rows pool.id) b
          × All (IsBacked rows pool.id b) (enabled (pool_input targets rows pool.id)))
        (pool_input targets rows pool.id).bindings
        (λ b served. (served, served-IsBacked rows pool.id b served))
        (project_pool_health-AreServed (pool_input targets rows pool.id) ne distinct h)
