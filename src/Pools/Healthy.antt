-- ===== src/Pools/Healthy.antt =====
-- What a pool that is reported healthy has.
use master_dns.Common.{
  ◌≡◌, refl, sym, ◌∙◌, inl, inr, subst, Bool, true, false, Option, none, some, List, [], ◌∷◌, ◌++◌,
  String, All, All-map, all, any, find, if◌then◌else◌, Bool-cases, arith,
}
use mathlib.Core.Option.{some-injective}
use master_dns.Common.Text.{str_eq, str_eq_iff}
use master_dns.Health.{HealthState, unknown, healthy, degraded, unhealthy, recovering}
use master_dns.Pools.Projection.{
  PoolEndpoint, PoolAddress, PoolBinding, PoolHealthInput, States, is_healthy, is_up, is_recovering,
  is_unknown, summarize_health, put, is_missing, family_of, has_family, is_health_of, reported,
  expects, enabled, addresses_of, has_override, address_state, candidate_states,
  endpoint_candidates, all_candidates, binding_state, fill_bindings, fill_endpoints, values,
  overall, project_pool_health,
}

is_healthy-true : (s : HealthState) → is_healthy s ≡ true → s ≡ healthy
is_healthy-true healthy e = refl
is_healthy-true unknown e = cc
is_healthy-true degraded e = cc
is_healthy-true unhealthy e = cc
is_healthy-true recovering e = cc

all_healthy :
    (states : List HealthState) → all is_healthy states ≡ true → All (λ s. s ≡ healthy) states
all_healthy [] e = tt
all_healthy (s ∷ states) e = (is_healthy-true s (ground arith), all_healthy states (ground arith))

not_healthy :
    (a b c : Bool)
    → ¬ (
        (if a then degraded else if b then recovering else if c then unknown else unhealthy)
        ≡ healthy)
not_healthy true b c e = cc
not_healthy false true c e = cc
not_healthy false false true e = cc
not_healthy false false false e = cc

-- The summary is healthy only of states that are all healthy.
summarize_health-healthy :
    (states : List HealthState) → summarize_health states ≡ healthy → All (λ s. s ≡ healthy) states
unfolding summarize_health
summarize_health-healthy [] e = cc
summarize_health-healthy (s ∷ states) e = elim (Bool-cases (all is_healthy (s ∷ states))) [
  | inl t ↦ all_healthy (s ∷ states) t
  | inr t ↦ absurd (
      not_healthy (any is_up (s ∷ states)) (any is_recovering (s ∷ states))
        (any is_unknown (s ∷ states)) (rw t at e))
]

summarize_health-nonempty :
    (states : List HealthState) → summarize_health states ≡ healthy → ¬ (states ≡ [])
unfolding summarize_health
summarize_health-nonempty [] e = cc
summarize_health-nonempty (s ∷ states) e = λ h. cc

abbrev get : String → States → Option HealthState
get id [] = none
get id ((key, state) ∷ rest) =
    let later = get id rest in if str_eq key id then some state else later

get-put :
    (id : String) (state : HealthState) (states : States)
    → get id (put id state states) ≡ some state
get-put id state [] = rw ((str_eq_iff id id).1 refl) refl
get-put id state ((key, old) ∷ rest) = elim (Bool-cases (str_eq key id)) [
  | inl e ↦ rw (e, e) refl
  | inr e ↦ rw (e, e) (get-put id state rest)
]

get-put_other :
    (id other : String) (state : HealthState) (states : States)
    → str_eq other id ≡ false
    → get id (put other state states) ≡ get id states
get-put_other id other state [] e = rw e refl
get-put_other id other state ((key, old) ∷ rest) e = elim (Bool-cases (str_eq key other)) [
  | inl h ↦ rw (h, other_key h) refl
  | inr h ↦ rw (h, get-put_other id other state rest e) refl
]
  where
    other_key : str_eq key other ≡ true → str_eq key id ≡ false
    other_key h = subst (λ k. str_eq k id ≡ false) (sym ((str_eq_iff key other).0 h)) e

values-get :
    (states : States) (id : String) (v : HealthState)
    → All (λ s. s ≡ healthy) (values states)
    → get id states ≡ some v
    → v ≡ healthy
values-get [] id v h e = cc
values-get ((key, state) ∷ rest) id v (own, h) e = elim (Bool-cases (str_eq key id)) [
  | inl t ↦ sym (some-injective _ _ (rw t at e)) ∙ own
  | inr t ↦ values-get rest id v h (rw t at e)
]

append_left :
    (xs ys : List HealthState) → All (λ s. s ≡ healthy) (xs ++ ys) → All (λ s. s ≡ healthy) xs
append_left [] ys h = tt
append_left (x ∷ xs) ys (p, h) = (p, append_left xs ys h)

append_right :
    (xs ys : List HealthState) → All (λ s. s ≡ healthy) (xs ++ ys) → All (λ s. s ≡ healthy) ys
append_right [] ys h = h
append_right (x ∷ xs) ys (p, h) = append_right xs ys h

-- No two bindings share an id.
abbrev pub HasDistinctIds : List PoolBinding → Type 0
HasDistinctIds [] = Unit
HasDistinctIds (binding ∷ bindings) =
    All (λ b. str_eq b.id binding.id ≡ false) bindings × HasDistinctIds bindings

-- Why an endpoint does not keep a binding from being healthy: it is no candidate for it, or its
-- address of the binding's family is not missing, and is healthy by the check that applies.
pub data Serves (input : PoolHealthInput) (binding : PoolBinding) (endpoint : PoolEndpoint)
    : Type 0 where
  no_candidate :
      find (has_family (family_of binding.record_type)) (addresses_of input endpoint) ≡ none
      → expects
          (family_of binding.record_type)
          endpoint.address_families
          (addresses_of input endpoint)
        ≡ false
      → Serves input binding endpoint
  by_address :
      (address : PoolAddress)
      → find (has_family (family_of binding.record_type)) (addresses_of input endpoint)
        ≡ some address
      → is_missing address.available ≡ false
      → has_override input binding ≡ false
      → address.health_state ≡ healthy
      → Serves input binding endpoint
  by_binding :
      (address : PoolAddress)
      → find (has_family (family_of binding.record_type)) (addresses_of input endpoint)
        ≡ some address
      → is_missing address.available ≡ false
      → has_override input binding ≡ true
      → reported (find (is_health_of binding endpoint address) input.binding_health) ≡ healthy
      → Serves input binding endpoint

module _ (input : PoolHealthInput) where
  fill-absent :
      (id : String) (bindings : List PoolBinding) (states : States)
      → All (λ b. str_eq b.id id ≡ false) bindings
      → get id (fill_bindings input bindings states) ≡ get id states
  fill-absent id [] states h = refl
  fill-absent id (b ∷ bindings) states (other, h) =
      fill-absent id bindings (put b.id (binding_state input b) states) h
      ∙ get-put_other id b.id (binding_state input b) states other

  filled :
      (bindings : List PoolBinding) (states : States)
      → HasDistinctIds bindings
      → All (λ s. s ≡ healthy) (values (fill_bindings input bindings states))
      → All (λ b. binding_state input b ≡ healthy) bindings
  filled [] states d h = tt
  filled (b ∷ bindings) states (fresh, d) h = (
    values-get (fill_bindings input bindings (put b.id (binding_state input b) states)) b.id
        (binding_state input b) h
        (fill-absent b.id bindings (put b.id (binding_state input b) states) fresh
          ∙ get-put b.id (binding_state input b) states),
    filled bindings (put b.id (binding_state input b) states) d h,
  )

  address_state-Serves :
      (b : PoolBinding) (e : PoolEndpoint) (a : PoolAddress)
      → find (has_family (family_of b.record_type)) (addresses_of input e) ≡ some a
      → address_state input b e a ≡ healthy
      → Serves input b e
  address_state-Serves b e a found h = elim (Bool-cases (is_missing a.available)) [
    | inl m ↦ absurd (unknown_not_healthy (rw m at h))
    | inr m ↦ elim (Bool-cases (has_override input b)) [
      | inl o ↦ by_binding a found m o (rw (m, o) at h)
      | inr o ↦ by_address a found m o (rw (m, o) at h)
    ]
  ]
    where
      unknown_not_healthy : unknown ≡ healthy → ⊥
      unknown_not_healthy e = cc

  found-Serves :
      (b : PoolBinding) (e : PoolEndpoint) (found : Option PoolAddress)
      → find (has_family (family_of b.record_type)) (addresses_of input e) ≡ found
      → All (λ s. s ≡ healthy) (candidate_states input b e found)
      → Serves input b e
  found-Serves b e none found h =
      elim (Bool-cases
        (expects (family_of b.record_type) e.address_families (addresses_of input e))) [
          | inl x ↦ absurd (first_healthy (rw x at h))
          | inr x ↦ no_candidate found x
        ]
    where
      first_healthy : All (λ s. s ≡ healthy) (unknown ∷ []) → ⊥
      first_healthy (p, q) = cc
  found-Serves b e (some a) found (h, q) = address_state-Serves b e a found h

  candidates-Serves :
      (b : PoolBinding) (endpoints : List PoolEndpoint)
      → All (λ s. s ≡ healthy) (all_candidates input b endpoints)
      → All (Serves input b) endpoints
  candidates-Serves b [] h = tt
  candidates-Serves b (e ∷ endpoints) h = (
    found-Serves b e (find (has_family (family_of b.record_type)) (addresses_of input e)) refl
        (append_left (endpoint_candidates input b e) (all_candidates input b endpoints) h),
    candidates-Serves b endpoints
        (append_right (endpoint_candidates input b e) (all_candidates input b endpoints) h),
  )

  -- The binding has a candidate among the enabled endpoints, and each of them serves it or is none.
  abbrev pub IsServed : PoolBinding → Type 0
  IsServed b =
      (¬ (all_candidates input b (enabled input) ≡ [])) × All (Serves input b) (enabled input)

  binding_state-IsServed : (b : PoolBinding) → binding_state input b ≡ healthy → IsServed b
  binding_state-IsServed b h = (
    summarize_health-nonempty (all_candidates input b (enabled input)) h,
    candidates-Serves b (enabled input)
        (summarize_health-healthy (all_candidates input b (enabled input)) h),
  )

  overall-values :
      (bindings : List PoolBinding) (states endpoint_states : States)
      → ¬ (bindings ≡ [])
      → overall input bindings states endpoint_states ≡ healthy
      → All (λ s. s ≡ healthy) (values states)
  overall-values [] states endpoint_states ne h = absurd (ne refl)
  overall-values (_ ∷ _) states endpoint_states ne h = summarize_health-healthy (values states) h

  -- Of a pool with bindings, whose ids differ, that is reported healthy, each binding has a candidate
  -- among the enabled endpoints; and each enabled endpoint either is no candidate for the binding's
  -- family, or has an address of the family that is not missing and is healthy, by the binding's own
  -- check where the binding has one and by the address's check otherwise.
  pub project_pool_health-AreServed :
      ¬ (input.bindings ≡ [])
      → HasDistinctIds input.bindings
      → (project_pool_health input).state ≡ healthy
      → All IsServed input.bindings
  unfolding project_pool_health
  project_pool_health-AreServed ne distinct h =
      All-map (λ b. binding_state input b ≡ healthy) IsServed input.bindings binding_state-IsServed
        (filled input.bindings [] distinct (
          overall-values input.bindings (fill_bindings input input.bindings [])
            (fill_endpoints input (enabled input) []) ne h))
