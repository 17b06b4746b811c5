-- ===== src/Strategy/Unusable.antt =====
-- A binding without candidates may use no endpoint, and the working copies change nothing in that.
use master_dns.Common.{
  ◌⊎◌, ◌≡◌, refl, ap, sym, ◌∙◌, inl, inr, Bool, true, false, ◌&&◌, Option, none, some, List, [],
  ◌∷◌, String, filter, Bool-cases, All, arith,
}
use master_dns.Health.{HealthState, healthy, degraded}
use master_dns.Strategy.Types.{StrategyEndpoint, StrategyBinding}
use master_dns.Strategy.Candidates.{
  supports_family, is_available, is_enabled, is_healthy_enough, healthy_by, healthy_for_binding,
}
use master_dns.Strategy.Usable.{IsUsable, health_by}

-- Whether the endpoint is one that the binding may use.
abbrev pub fits_by :
    StrategyBinding → Option (String → Option HealthState) → StrategyEndpoint → Bool
fits_by b states e =
    is_enabled e.lifecycle
    && is_healthy_enough (health_by states e)
    && supports_family b.required_address_family e.address_families

abbrev pub fits : StrategyBinding → StrategyEndpoint → Bool
fits b e = fits_by b b.endpoint_health_states e

enough_state :
    (state : HealthState) → (state ≡ healthy) ⊎ (state ≡ degraded) → is_healthy_enough state ≡ true
enough_state state h = ground arith

usable-fits : (b : StrategyBinding) (e : StrategyEndpoint) → IsUsable b e → fits b e ≡ true
usable-fits b e u =
    all_true (ap is_enabled u.is_enabled)
      (enough_state (health_by b.endpoint_health_states e) u.is_healthy) u.family
  where
    all_true : {x y z : Bool} → x ≡ true → y ≡ true → z ≡ true → (x && y && z) ≡ true
    all_true h k l = rw (h, k, l) refl

pub misfit-Unusable :
    (b : StrategyBinding) (e : StrategyEndpoint) → fits b e ≡ false → ¬ (IsUsable b e)
misfit-Unusable b e h u = false_not (sym h ∙ usable-fits b e u)
  where
    false_not : false ≡ true → ⊥
    false_not x = cc

filter_none {ℓ} :
    {A : Type ℓ} (p : A → Bool) (xs : List A) → filter p xs ≡ [] → All (λ x. p x ≡ false) xs
filter_none p [] h = tt
filter_none {A = A} p (x ∷ xs) h = elim (Bool-cases (p x)) [
  | inl e ↦ absurd (cons_not (rw e at h))
  | inr e ↦ (e, filter_none p xs (rw e at h))
]
  where
    cons_not : {ys : List A} → ◌≡◌ {A = List A} (x ∷ ys) [] → ⊥
    cons_not e = cc

filter-filter {ℓ} :
    {A : Type ℓ} (p q : A → Bool) (xs : List A)
    → filter p (filter q xs) ≡ filter (λ x. q x && p x) xs
filter-filter p q [] = refl
filter-filter p q (x ∷ xs) = elim (Bool-cases (q x)) [
  | inl e ↦ elim (Bool-cases (p x)) [
    | inl f ↦ rw (e, f, filter-filter p q xs) refl
    | inr f ↦ rw (e, f, filter-filter p q xs) refl
  ]
  | inr e ↦ rw (e, filter-filter p q xs) refl
]

&&-assoc : (a b c : Bool) → ((a && b) && c) ≡ (a && b && c)
&&-assoc true b c = refl
&&-assoc false b c = refl

filter_same {ℓ} :
    {A : Type ℓ} (p q : A → Bool)
    → ((x : A) → p x ≡ q x)
    → (xs : List A) → filter p xs ≡ filter q xs
filter_same p q same [] = refl
filter_same p q same (x ∷ xs) = rw (same x, filter_same p q same xs) refl

module _ {ℓ} {A : Type ℓ} (view : A → StrategyEndpoint) (b : StrategyBinding) where
  -- The candidates of a binding are the endpoints that fit it.
  pub healthy_for_binding-fits :
      (xs : List A)
      → healthy_for_binding view b (filter (λ e. is_available (view e)) xs) xs
        ≡ filter (λ x. fits b (view x)) xs
  unfolding healthy_for_binding
  healthy_for_binding-fits xs = by_states b.endpoint_health_states
    where
      by_states :
          (states : Option (String → Option HealthState))
          → healthy_by view b states (filter (λ e. is_available (view e)) xs) xs
            ≡ filter (λ x. fits_by b states (view x)) xs
      by_states none =
          filter-filter (λ x. supports_family b.required_address_family (view x).address_families)
            (λ x. is_available (view x)) xs
          ∙ filter_same _ _
              (λ x.
                &&-assoc (is_enabled (view x).lifecycle) (is_healthy_enough (view x).health_state)
                  (supports_family b.required_address_family (view x).address_families))
              xs
      by_states (some states) = refl

  pub healthy_for_binding-misfit :
      (xs : List A)
      → healthy_for_binding view b (filter (λ e. is_available (view e)) xs) xs ≡ []
      → All (λ x. fits b (view x) ≡ false) xs
  healthy_for_binding-misfit xs h =
      filter_none (λ x. fits b (view x)) xs (sym (healthy_for_binding-fits xs) ∙ h)
