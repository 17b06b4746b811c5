-- ===== src/Strategy/Keeping.antt =====
-- A binding for which the loop chooses nothing may use no endpoint of the pool.
use Prim.Native.Nat.{Ordering}
use master_dns.Common.{
  ℕ, suc, ◌≡◌, refl, ap, sym, ◌∙◌, inl, inr, subst, Bool, true, false, not, ◌&&◌, Option, none,
  some, List, [], ◌∷◌, String, filter, map, any, find, Bool-cases, Option-cases, All, arith, ◌==◌,
}
use master_dns.Common.Text.{str_eq, includes}
use master_dns.Health.{HealthState}
use master_dns.Strategy.Types.{
  SelectionMode, StrategyEndpoint, StrategyBinding, StrategyContext, Cursors,
}
use master_dns.Strategy.Copies.{
  Working, update_count, update_ids, update_found, working_by_id, number_from, with_count,
}
use master_dns.Strategy.Evaluate.{
  usable, has_id, find_original, find_current, original_usable, recover_original, is_repair,
  current_healthy, choose,
}
use master_dns.Strategy.Usable.{IsUsable}
use master_dns.Strategy.Select.{select_endpoint}
use master_dns.Strategy.Selection.{select_endpoint_total}
use master_dns.Strategy.Unusable.{
  misfit-Unusable, healthy_for_binding-misfit, fits, fits_by, healthy_for_binding-fits,
}

-- The endpoints without their counts.
abbrev pub bare : StrategyEndpoint → StrategyEndpoint
bare e = with_count e 0

abbrev pub originals : List Working → List StrategyEndpoint
originals ws = map (λ w. bare w.endpoint) ws

pub originals-update_count :
    (change : ℕ → ℕ) (slot : ℕ) (ws : List Working)
    → originals (update_count change slot ws) ≡ originals ws
unfolding update_count
originals-update_count change slot [] = refl
originals-update_count change slot (w ∷ ws) = elim (Bool-cases (w.slot == slot)) [
  | inl e ↦ rw e (ap (λ es. bare w.endpoint ∷ es) (originals-update_count change slot ws))
  | inr e ↦ rw e (ap (λ es. bare w.endpoint ∷ es) (originals-update_count change slot ws))
]

originals-update_found :
    (change : ℕ → ℕ) (found : Option Working) (ws : List Working)
    → originals (update_found change found ws) ≡ originals ws
originals-update_found change none ws = refl
originals-update_found change (some w) ws = originals-update_count change w.slot ws

pub originals-update_ids :
    (change : ℕ → ℕ) (ids : List String) (ws : List Working)
    → originals (update_ids change ids ws) ≡ originals ws
unfolding update_ids
originals-update_ids change [] ws = refl
originals-update_ids change (id ∷ ids) ws =
    originals-update_ids change ids (update_found change (working_by_id id ws) ws)
    ∙ originals-update_found change (working_by_id id ws) ws

pub originals-number_from :
    (n : ℕ) (es : List StrategyEndpoint) → originals (number_from n es) ≡ map bare es
unfolding number_from
originals-number_from n [] = refl
originals-number_from n (e ∷ es) = ap (λ r. bare e ∷ r) (originals-number_from (suc n) es)

fits-bare : (b : StrategyBinding) (e : StrategyEndpoint) → fits b (bare e) ≡ fits b e
fits-bare b e = by_states b.endpoint_health_states
  where
    by_states :
        (states : Option (String → Option HealthState))
        → fits_by b states (bare e) ≡ fits_by b states e
    by_states none = refl
    by_states (some states) = refl

any-filter {ℓ} :
    {A : Type ℓ} (p q : A → Bool) (xs : List A) → any q (filter p xs) ≡ any (λ x. p x && q x) xs
any-filter p q [] = refl
any-filter p q (x ∷ xs) = elim (Bool-cases (p x)) [
  | inl e ↦ rw (e, any-filter p q xs) refl
  | inr e ↦ rw (e, any-filter p q xs) refl
]

find-none {ℓ} : {A : Type ℓ} (p : A → Bool) (xs : List A) → find p xs ≡ none → any p xs ≡ false
find-none p [] h = refl
find-none {A = A} p (x ∷ xs) h = elim (Bool-cases (p x)) [
  | inl e ↦ absurd (some_not (rw e at h))
  | inr e ↦ rw e (find-none p xs (rw e at h))
]
  where
    some_not : ◌≡◌ {A = Option A} (some x) none → ⊥
    some_not e = cc

-- An endpoint of an id among those that fit.
abbrev fits_as : StrategyBinding → String → StrategyEndpoint → Bool
fits_as b id e = fits b e && str_eq e.id id

any-originals :
    (b : StrategyBinding) (id : String) (ws : List Working)
    → any (λ w. fits_as b id w.endpoint) ws ≡ any (fits_as b id) (originals ws)
any-originals b id [] = refl
any-originals b id (w ∷ ws) = rw (fits-bare b w.endpoint, any-originals b id ws) refl

pub usable-fits_only :
    (b : StrategyBinding) (ws : List Working) → usable b ws ≡ filter (λ w. fits b w.endpoint) ws
unfolding usable
usable-fits_only b ws = healthy_for_binding-fits (λ w. w.endpoint) b ws

has_id-usable :
    (b : StrategyBinding) (id : String) (ws : List Working)
    → has_id (usable b ws) id ≡ any (fits_as b id) (originals ws)
has_id-usable b id ws =
    ap (λ us. has_id us id) (usable-fits_only b ws)
    ∙ any-filter (λ w. fits b w.endpoint) (λ w. str_eq w.endpoint.id id) ws
    ∙ any-originals b id ws

-- Which ids are usable does not depend on the counts.
has_id-same :
    (b : StrategyBinding) (id : String) (before released : List Working)
    → originals released ≡ originals before
    → has_id (usable b before) id ≡ has_id (usable b released) id
has_id-same b id before released same =
    has_id-usable b id before
    ∙ ap (any (fits_as b id)) (sym same)
    ∙ sym (has_id-usable b id released)

true_not_false : true ≡ false → ⊥
true_not_false e = cc

original_found :
    (b : StrategyBinding) (id : Option String) (current : List String)
    (before released : List Working)
    → originals released ≡ originals before
    → original_usable id current (usable b before) ≡ true
    → find_original id (usable b released) ≡ none
    → ⊥
original_found b none current before released same h e = cc
original_found b (some id) current before released same h e = true_not_false (
    sym (both h)
    ∙ has_id-same b id before released same
    ∙ find-none (λ w. str_eq w.endpoint.id id) (usable b released) e)
  where
    both :
        (has_id (usable b before) id && not (includes current id)) ≡ true
        → has_id (usable b before) id ≡ true
    both k = ground arith

current_found :
    (b : StrategyBinding) (ids : List String) (before released : List Working)
    → originals released ≡ originals before
    → find_current ids (usable b released) ≡ none
    → any (has_id (usable b before)) ids ≡ false
unfolding find_current
current_found b [] before released same e = refl
current_found b (id ∷ ids) before released same e =
    elim (Option-cases (find (λ w. str_eq w.endpoint.id id) (usable b released))) [
      | inl f ↦
          rw
            (
              has_id-same b id before released same
                  ∙ find-none (λ w. str_eq w.endpoint.id id) (usable b released) f,
              current_found b ids before released same (rw f at e),
            )
            refl
      | inr (w, f) ↦ absurd (some_not w (rw f at e))
    ]
  where
    some_not : (w : Working) → ◌≡◌ {A = Option Working} (some w) none → ⊥
    some_not w h = cc

module _ (locale_compare : String → String → Ordering) (ctx : StrategyContext) where
  nothing_selected :
      (us : List Working) (mode : SelectionMode) (event_id : String) (b : StrategyBinding)
      (cursor : Option String)
      → select_endpoint locale_compare (λ w. w.endpoint) us mode event_id b cursor ≡ none
      → us ≡ []
  nothing_selected [] mode event_id b cursor h = refl
  nothing_selected (u ∷ us) mode event_id b cursor h =
      let (w, found, there) =
        select_endpoint_total locale_compare (λ w. w.endpoint) (u ∷ us) mode event_id b cursor
          (λ e. cc) in
      absurd (some_not w (sym found ∙ h))
    where
      some_not : (w : Working) → ◌≡◌ {A = Option Working} (some w) none → ⊥
      some_not w e = cc

  -- The loop chooses nothing only for a binding without candidates.
  pub chosen_none :
      (b : StrategyBinding) (cursors : Cursors) (before released : List Working)
      → originals released ≡ originals before
      → choose locale_compare ctx b cursors before released ≡ none
      → usable b released ≡ []
  unfolding choose recover_original current_healthy
  chosen_none b cursors before released same h =
      elim (Bool-cases (recover_original ctx b (usable b before))) [
        | inl r ↦ absurd (
            original_found b b.original_endpoint_id b.current_endpoint_ids before released same
              (recovers_by r) (rw r at h))
        | inr r ↦ elim (Bool-cases (is_repair ctx.trigger && current_healthy b (usable b before))) [
          | inl k ↦ absurd (
              true_not_false (
                sym (repairs_by k)
                ∙ current_found b b.current_endpoint_ids before released same
                    (rw k at (rw r at h))))
          | inr k ↦ nothing_selected (usable b released) _ _ b _ (rw k at (rw r at h))
        ]
      ]
    where
      recovers_by :
          recover_original ctx b (usable b before) ≡ true
          → original_usable b.original_endpoint_id b.current_endpoint_ids (usable b before) ≡ true
      recovers_by r = ground arith

      repairs_by :
          (is_repair ctx.trigger && current_healthy b (usable b before)) ≡ true
          → any (has_id (usable b before)) b.current_endpoint_ids ≡ true
      repairs_by k = ground arith

-- Endpoints misfit as their copies do.
copies_misfit :
    (b : StrategyBinding) (ws : List Working)
    → All (λ w. fits b w.endpoint ≡ false) ws
    → All (λ e. fits b e ≡ false) (originals ws)
copies_misfit b [] h = tt
copies_misfit b (w ∷ ws) (misfit, h) = (fits-bare b w.endpoint ∙ misfit, copies_misfit b ws h)

bare_misfit :
    (b : StrategyBinding) (es : List StrategyEndpoint)
    → All (λ e. fits b e ≡ false) (map bare es)
    → All (λ e. ¬ (IsUsable b e)) es
bare_misfit b [] h = tt
bare_misfit b (e ∷ es) (misfit, h) =
    (misfit-Unusable b e (sym (fits-bare b e) ∙ misfit), bare_misfit b es h)

pub none_usable :
    (b : StrategyBinding) (pool : List StrategyEndpoint) (ws : List Working)
    → originals ws ≡ map bare pool
    → usable b ws ≡ []
    → All (λ e. ¬ (IsUsable b e)) pool
unfolding usable
none_usable b pool ws same h = bare_misfit b pool (
    subst (λ es. All (λ e. fits b e ≡ false) es) same
      (copies_misfit b ws (healthy_for_binding-misfit (λ w. w.endpoint) b ws h)))
