-- ===== src/Strategy/Candidates.antt =====
-- Which endpoints a binding may point to, and how they are named in a cursor's key.
use Prim.Native.String.{◌++◌ as concat}
use master_dns.Common.{
  Bool, true, false, ◌&&◌, ◌||◌, Option, none, some, List, [], ◌∷◌, String, filter, get_or,
}
use master_dns.Health.{HealthState, unknown, healthy, degraded}
use master_dns.Strategy.Types.{
  AddressFamily, v4, v6, EndpointLifecycle, enabled, StrategyEndpoint, StrategyBinding,
}
use master_dns.Strategy.Order.{sort, compare_texts}

abbrev pub is_enabled : EndpointLifecycle → Bool
is_enabled enabled = true
is_enabled _ = false

abbrev pub is_healthy_enough : HealthState → Bool
is_healthy_enough healthy = true
is_healthy_enough degraded = true
is_healthy_enough _ = false

abbrev pub is_available : StrategyEndpoint → Bool
is_available e = is_enabled e.lifecycle && is_healthy_enough e.health_state

abbrev pub same_family : AddressFamily → AddressFamily → Bool
same_family v4 v4 = true
same_family v6 v6 = true
same_family _ _ = false

abbrev pub has_family : List AddressFamily → AddressFamily → Bool
has_family [] f = false
has_family (x ∷ xs) f = same_family x f || has_family xs f

-- `!required || endpoint.addressFamilies?.includes(required) === true`
abbrev pub supports_family : Option AddressFamily → Option (List AddressFamily) → Bool
supports_family none families = true
supports_family (some f) none = false
supports_family (some f) (some families) = has_family families f

-- The code's lists hold endpoints, or the working copies of them that `view` looks through.
module _ {ℓ} {A : Type ℓ} (view : A → StrategyEndpoint) where
  abbrev pub healthy_by :
      StrategyBinding → Option (String → Option HealthState) → (fallback working : List A) → List A
  healthy_by b none fallback working =
      filter (λ e. supports_family b.required_address_family (view e).address_families) fallback
  healthy_by b (some states) fallback working =
      filter
        (λ e.
          is_enabled (view e).lifecycle
          && is_healthy_enough (get_or (states (view e).id) unknown)
          && supports_family b.required_address_family (view e).address_families)
        working

  unfoldable pub healthy_for_binding : StrategyBinding → (fallback working : List A) → List A
  healthy_for_binding b fallback working = healthy_by b b.endpoint_health_states fallback working

abbrev pub family_name : Option AddressFamily → String
family_name none = "any"
family_name (some v4) = "4"
family_name (some v6) = "6"

-- `[first, ...rest].join(":")`
abbrev pub join_colon : String → List String → String
join_colon first [] = first
join_colon first (x ∷ xs) = concat first (concat ":" (join_colon x xs))

unfoldable pub round_robin_cursor_key : StrategyBinding → List String → String
round_robin_cursor_key b ids =
    join_colon (family_name b.required_address_family) (sort compare_texts ids)
