-- ===== src/Strategy/Usable.antt =====
-- Which endpoints the working copies stand for, and which of them a binding may use.
use mathlib.Core.List.{Memᴰ}
use master_dns.Common.{
  ℕ, suc, ◌≡◌, ◌⊎◌, refl, ap, inl, inr, true, Option, none, some, List, [], ◌∷◌, String, arith,
  Bool-cases, subst, All, filter, get_or, ◌&&◌, sym, All-filter, All-map, filter_holds, ◌==◌,
  All-zip,
}
use master_dns.Health.{HealthState, unknown, healthy, degraded}
use master_dns.Strategy.Types.{enabled, StrategyEndpoint, StrategyBinding}
use master_dns.Strategy.Candidates.{
  supports_family, is_available, is_enabled, is_healthy_enough, healthy_by, healthy_for_binding,
}
use master_dns.Strategy.Copies.{
  Working, update_count, with_count, number_from, update_found, update_ids, working_by_id,
}

-- The health of an endpoint as the binding sees it.
abbrev pub health_by : Option (String → Option HealthState) → StrategyEndpoint → HealthState
health_by none e = e.health_state
health_by (some states) e = get_or (states e.id) unknown

-- The binding may point to the endpoint.
pub record IsUsable (b : StrategyBinding) (e : StrategyEndpoint) : Type 0 where
  pub is_enabled : e.lifecycle ≡ enabled
  pub is_healthy :
      (health_by b.endpoint_health_states e ≡ healthy)
      ⊎ (health_by b.endpoint_health_states e ≡ degraded)
  pub family : supports_family b.required_address_family e.address_families ≡ true

enough :
    (state : HealthState) → is_healthy_enough state ≡ true → (state ≡ healthy) ⊎ (state ≡ degraded)
enough state h = ground arith

module _ {ℓ} {A : Type ℓ} (view : A → StrategyEndpoint) (b : StrategyBinding) where
  own_health :
      (e : A)
      → b.endpoint_health_states ≡ none
      → is_available (view e) ≡ true
      → supports_family b.required_address_family (view e).address_families ≡ true
      → IsUsable b (view e)
  own_health e none_given a f = ground arith

  given_health :
      (states : String → Option HealthState) (e : A)
      → b.endpoint_health_states ≡ some states
      → (is_enabled (view e).lifecycle
          && is_healthy_enough (get_or (states (view e).id) unknown)
          && supports_family b.required_address_family (view e).address_families)
        ≡ true
      → IsUsable b (view e)
  given_health states e given h = record {
    is_enabled = ground arith;
    is_healthy =
        subst (λ o. (health_by o (view e) ≡ healthy) ⊎ (health_by o (view e) ≡ degraded))
          (sym given) (enough (get_or (states (view e).id) unknown) (ground arith));
    family = ground arith;
  }

  healthy_by-IsUsable :
      (states : Option (String → Option HealthState)) (fallback working : List A)
      → b.endpoint_health_states ≡ states
      → All (λ e. is_available (view e) ≡ true) fallback
      → All (λ e. IsUsable b (view e)) (healthy_by view b states fallback working)
  healthy_by-IsUsable none fallback working given h =
      All-map _ _ _ (λ e p. own_health e given p.0 p.1)
        (All-zip _ _ _ (All-filter _ _ fallback h) (filter_holds _ fallback))
  healthy_by-IsUsable (some states) fallback working given h =
      All-map _ _ _ (λ e p. given_health states e given p) (filter_holds _ working)

  -- The candidates of a binding are usable.
  pub healthy_for_binding-IsUsable :
      (xs : List A)
      → All
          (λ e. IsUsable b (view e))
          (healthy_for_binding view b (filter (λ e. is_available (view e)) xs) xs)
  unfolding healthy_for_binding
  healthy_for_binding-IsUsable xs =
      healthy_by-IsUsable b.endpoint_health_states _ xs refl (filter_holds _ xs)

  healthy_by-All {κ} :
      (P : A → Type κ) (states : Option (String → Option HealthState)) (fallback working : List A)
      → All P fallback
      → All P working
      → All P (healthy_by view b states fallback working)
  healthy_by-All P none fallback working h k = All-filter P _ fallback h
  healthy_by-All P (some states) fallback working h k = All-filter P _ working k

  pub healthy_for_binding-All {κ} :
      (P : A → Type κ) (xs : List A)
      → All P xs
      → All P (healthy_for_binding view b (filter (λ e. is_available (view e)) xs) xs)
  unfolding healthy_for_binding
  healthy_for_binding-All P xs h =
      healthy_by-All P b.endpoint_health_states _ xs (All-filter P _ xs h) h

-- A working copy stands for an endpoint of the pool, and differs from it by its count at most.
pub record StandsFor (pool : List StrategyEndpoint) (w : Working) : Type 0 where
  pub original : StrategyEndpoint
  pub in_pool : Memᴰ original pool
  pub same : w.endpoint ≡ with_count original w.endpoint.active_binding_count

module _ (pool : List StrategyEndpoint) where
  pub update_count-StandsFor :
      (change : ℕ → ℕ) (slot : ℕ) (ws : List Working)
      → All (StandsFor pool) ws
      → All (StandsFor pool) (update_count change slot ws)
  unfolding update_count
  update_count-StandsFor change slot [] h = tt
  update_count-StandsFor change slot (w ∷ ws) (p, h) = elim (Bool-cases (w.slot == slot)) [
    | inl e ↦ rw e (
      record {
        original = p.original;
        in_pool = p.in_pool;
        same = ap (λ e. with_count e (change w.endpoint.active_binding_count)) p.same;
      },
      update_count-StandsFor change slot ws h,
    )
    | inr e ↦ rw e (p, update_count-StandsFor change slot ws h)
  ]

  update_found-StandsFor :
      (change : ℕ → ℕ) (found : Option Working) (ws : List Working)
      → All (StandsFor pool) ws
      → All (StandsFor pool) (update_found change found ws)
  update_found-StandsFor change none ws h = h
  update_found-StandsFor change (some w) ws h = update_count-StandsFor change w.slot ws h

  pub update_ids-StandsFor :
      (change : ℕ → ℕ) (ids : List String) (ws : List Working)
      → All (StandsFor pool) ws
      → All (StandsFor pool) (update_ids change ids ws)
  unfolding update_ids
  update_ids-StandsFor change [] ws h = h
  update_ids-StandsFor change (id ∷ ids) ws h =
      update_ids-StandsFor change ids (update_found change (working_by_id id ws) ws)
        (update_found-StandsFor change (working_by_id id ws) ws h)

  pub number_from-StandsFor :
      (n : ℕ) (es : List StrategyEndpoint)
      → All (λ e. Memᴰ e pool) es
      → All (StandsFor pool) (number_from n es)
  unfolding number_from
  number_from-StandsFor n [] h = tt
  number_from-StandsFor n (e ∷ es) (m, h) =
      (record { original = e; in_pool = m; same = refl }, number_from-StandsFor (suc n) es h)

health_by-with_count :
    (states : Option (String → Option HealthState)) (e : StrategyEndpoint) (n : ℕ)
    → health_by states (with_count e n) ≡ health_by states e
health_by-with_count none e n = refl
health_by-with_count (some states) e n = refl

-- The binding may use the copied endpoint itself.
pub IsUsable-original :
    (pool : List StrategyEndpoint) (b : StrategyBinding) (w : Working) (h : StandsFor pool w)
    → IsUsable b w.endpoint
    → IsUsable b h.original
IsUsable-original pool b w h u =
    let v = subst (IsUsable b) h.same u in
    record {
      is_enabled = v.is_enabled;
      is_healthy =
          subst (λ s. (s ≡ healthy) ⊎ (s ≡ degraded))
            (health_by-with_count b.endpoint_health_states h.original
              w.endpoint.active_binding_count)
            v.is_healthy;
      family = v.family;
    }
