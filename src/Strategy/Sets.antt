-- ===== src/Strategy/Sets.antt =====
-- A healthy set points each binding to all the endpoints that it may use, in one order.
use mathlib.Core.List.{Memᴰ}
use master_dns.Common.{
  ◌≡◌, ◌≢◌, ◌⊎◌, refl, Bool, true, false, List, [], ◌∷◌, String, All, All-map, if◌then◌else◌, map,
  All-filter, All-zip, ◌&&◌, not, All-append, Bool-cases, arith, inl, inr, subst, sym,
}
use master_dns.Strategy.Types.{
  StrategyEndpoint, StrategyBinding, StrategyContext, BindingDecision, Reason,
}
use master_dns.Strategy.HealthySet.{
  available_for, available_current, preserves, desired_ids, is_empty, decide_set, decide_sets,
  repoints, same_ids, sorted_current, evaluate_healthy_set,
}
use master_dns.Strategy.Unusable.{misfit-Unusable, healthy_for_binding-misfit}
use master_dns.Strategy.Usable.{IsUsable, healthy_for_binding-All, healthy_for_binding-IsUsable}
use master_dns.Strategy.Sorting.{sort-All, All-mem}
use master_dns.Strategy.Order.{compare_texts, insert, sort}
use master_dns.Strategy.{
  evaluate_strategy, Ordering, evaluate_healthy_set, healthy_set, evaluate_by,
}

-- The identifier belongs to an endpoint of the pool that the binding may use.
abbrev pub NamesUsable : StrategyContext → StrategyBinding → String → Type 0
NamesUsable ctx b id = (e : StrategyEndpoint) × Memᴰ e ctx.endpoints × (id ≡ e.id) × IsUsable b e

-- The decision keeps a binding's endpoints in sorted order where it may use none of the pool, or points
-- it from these to endpoints that it may use.
abbrev pub IsSoundSet : StrategyContext → BindingDecision → Type 0
IsSoundSet ctx d =
    (b : StrategyBinding) × Memᴰ b ctx.bindings
    × (d.binding_id ≡ b.id)
    × (d.previous_endpoint_ids ≡ sort compare_texts b.current_endpoint_ids)
    × (((d.reason ≡ Reason.no_healthy_endpoint)
          × (d.desired_endpoint_ids ≡ sort compare_texts b.current_endpoint_ids)
          × All (λ e. ¬ (IsUsable b e)) ctx.endpoints)
        ⊎ ((d.desired_endpoint_ids ≢ []) × All (NamesUsable ctx b) d.desired_endpoint_ids))

map-All {ℓ κ μ} :
    {A : Type ℓ} {B : Type κ} (f : A → B) (P : B → Type μ) (xs : List A)
    → All (λ x. P (f x)) xs
    → All P (map f xs)
map-All f P [] h = tt
map-All f P (x ∷ xs) (p, h) = (p, map-All f P xs h)

available_for-All :
    (ctx : StrategyContext) (b : StrategyBinding)
    → All (λ e. NamesUsable ctx b e.id) (available_for ctx b)
unfolding available_for
available_for-All ctx b =
    All-map _ _ _ (λ e p. (e, p.0, refl, p.1))
      (All-zip _ _ _
        (healthy_for_binding-All (λ e. e) b (λ e. Memᴰ e ctx.endpoints) ctx.endpoints
          (All-mem ctx.endpoints))
        (healthy_for_binding-IsUsable (λ e. e) b ctx.endpoints))

desired_ids-All :
    (ctx : StrategyContext) (b : StrategyBinding) → All (NamesUsable ctx b) (desired_ids ctx b)
unfolding desired_ids available_current
desired_ids-All ctx b = sort-All compare_texts (NamesUsable ctx b) _ (
    map-All (λ e. e.id) (NamesUsable ctx b) _
      (chosen (preserves ctx && not (is_empty (available_current ctx b)))))
  where
    chosen :
        (keeps : Bool)
        → All
            (λ e. NamesUsable ctx b e.id)
            (if keeps then available_current ctx b else available_for ctx b)
    chosen true = All-filter _ _ (available_for ctx b) (available_for-All ctx b)
    chosen false = available_for-All ctx b

is_empty-insert {ℓ} :
    {A : Type ℓ} (cmp : A → A → Ordering) (x : A) (xs : List A) → is_empty (insert cmp x xs) ≡ false
unfolding insert
is_empty-insert cmp x [] = refl
is_empty-insert cmp x (y ∷ ys) = ground arith

is_empty-sort-map {ℓ κ} :
    {A : Type ℓ} {B : Type κ} (cmp : B → B → Ordering) (f : A → B) (xs : List A)
    → is_empty (sort cmp (map f xs)) ≡ true
    → xs ≡ []
unfolding sort
is_empty-sort-map cmp f [] h = refl
is_empty-sort-map cmp f (x ∷ xs) h =
    absurd (ground (arith, is_empty-insert cmp (f x) (sort cmp (map f xs))))

-- Where no identifier is desired, the binding may use no endpoint.
desired_ids-nil :
    (ctx : StrategyContext) (b : StrategyBinding)
    → is_empty (desired_ids ctx b) ≡ true
    → available_for ctx b ≡ []
unfolding desired_ids
desired_ids-nil ctx b h =
    chosen (preserves ctx) (available_current ctx b)
      (is_empty-sort-map compare_texts (λ e. e.id) _ h)
  where
    chosen :
        (keeps : Bool) (current : List StrategyEndpoint)
        → (if keeps && not (is_empty current) then current else available_for ctx b) ≡ []
        → available_for ctx b ≡ []
    chosen false current e = e
    chosen true [] e = e
    chosen true (x ∷ xs) e = cc

-- A binding without candidates may use no endpoint of the pool.
available_for-Unusable :
    (ctx : StrategyContext) (b : StrategyBinding)
    → available_for ctx b ≡ []
    → All (λ e. ¬ (IsUsable b e)) ctx.endpoints
unfolding available_for
available_for-Unusable ctx b h =
    All-map _ _ ctx.endpoints (λ e misfit. misfit-Unusable b e misfit)
      (healthy_for_binding-misfit (λ e. e) b ctx.endpoints h)

decide_set-IsSoundSet :
    (ctx : StrategyContext) (b : StrategyBinding)
    → Memᴰ b ctx.bindings
    → All (IsSoundSet ctx) (decide_set ctx b)
unfolding decide_set
decide_set-IsSoundSet ctx b m = elim (Bool-cases (is_empty (desired_ids ctx b))) [
  | inl none_left ↦ rw none_left (
    (
      b,
      m,
      refl,
      refl,
      inl (refl, refl, available_for-Unusable ctx b (desired_ids-nil ctx b none_left)),
    ),
    tt,
  )
  | inr some_left ↦
      elim (Bool-cases (not (repoints ctx) && same_ids (sorted_current b) (desired_ids ctx b))) [
        | inl same ↦ rw (some_left, same) tt
        | inr moved ↦
            rw (some_left, moved)
              ((b, m, refl, refl, inr (λ e. ground arith, desired_ids-All ctx b)), tt)
      ]
]

decide_sets-IsSoundSet :
    (ctx : StrategyContext) (bs : List StrategyBinding)
    → All (λ b. Memᴰ b ctx.bindings) bs
    → All (IsSoundSet ctx) (decide_sets ctx bs)
unfolding decide_sets
decide_sets-IsSoundSet ctx [] m = tt
decide_sets-IsSoundSet ctx (b ∷ bs) (p, m) =
    All-append (IsSoundSet ctx) (decide_set ctx b) (decide_sets ctx bs)
      (decide_set-IsSoundSet ctx b p) (decide_sets-IsSoundSet ctx bs m)

-- For a pool that is a healthy set, every decision belongs to one of the bindings given. Either no
-- endpoint of the pool is enabled, healthy or degraded as the binding sees it, and of the address
-- family that the binding requires, and the binding keeps its current endpoints, in sorted order; or
-- it is pointed from these to at least one endpoint, and each one it is pointed to is in the pool and
-- fits it in these ways.
pub evaluate_strategy-IsSoundSet :
    (locale_compare : String → String → Ordering) (ctx : StrategyContext)
    → ctx.strategy ≡ healthy_set
    → All (IsSoundSet ctx) (evaluate_strategy locale_compare ctx).decisions
unfolding evaluate_strategy evaluate_healthy_set
evaluate_strategy-IsSoundSet locale_compare ctx h =
    subst (λ s. All (IsSoundSet ctx) (evaluate_by locale_compare s ctx).decisions) (sym h)
      (decide_sets-IsSoundSet ctx ctx.bindings (All-mem ctx.bindings))
