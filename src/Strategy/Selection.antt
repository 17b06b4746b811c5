-- ===== src/Strategy/Selection.antt =====
-- What the selection modes choose.
use Prim.Native.Nat.{Ordering}
use mathlib.Core.List.{Memᴰ}
use native.Mathlib.Nat.{mod-lt}
use master_dns.Common.{get_elem?-All, get_elem?-some}
use master_dns.Common.{
  ◌≤◌, ◌<◌, ◌≡◌, ◌≢◌, ◌⊎◌, refl, true, false, Option, some, List, [], ◌∷◌, String, arith, length,
  All,
}
use master_dns.Strategy.Types.{
  SelectionMode, random, ordered, round_robin, least_assigned, StrategyEndpoint, StrategyBinding,
}
use master_dns.Strategy.Order.{is_gt}
use master_dns.Strategy.Select.{
  select_endpoint, by_priority, by_load, pick, head?, compare_priority, compare_load,
}
use master_dns.Strategy.Sorting.{All-mem, All-sort, head?-All, head?-sort, sort-All, length-sort}

-- `a` comes no later than `b` by priority, and by load and then priority.
abbrev NoLaterPriority : StrategyEndpoint → StrategyEndpoint → Type 0
NoLaterPriority a b = a.priority ≤ b.priority

abbrev NoMoreLoad : StrategyEndpoint → StrategyEndpoint → Type 0
NoMoreLoad a b =
    (a.active_binding_count < b.active_binding_count)
    ⊎ ((a.active_binding_count ≡ b.active_binding_count) × (a.priority ≤ b.priority))

module _ (locale_compare : String → String → Ordering) (a b : StrategyEndpoint) where
  keeps_priority : is_gt (compare_priority locale_compare a b) ≡ false → NoLaterPriority a b
  unfolding compare_priority
  keeps_priority g = ground arith

  swaps_priority : is_gt (compare_priority locale_compare a b) ≡ true → NoLaterPriority b a
  unfolding compare_priority
  swaps_priority g = ground arith

  keeps_load : is_gt (compare_load locale_compare a b) ≡ false → NoMoreLoad a b
  unfolding compare_load
  keeps_load g = ground arith

  swaps_load : is_gt (compare_load locale_compare a b) ≡ true → NoMoreLoad b a
  unfolding compare_load
  swaps_load g = ground arith

module _ {ℓ} {A : Type ℓ} (locale_compare : String → String → Ordering)
    (view : A → StrategyEndpoint) where
  priority_first :
      (xs : List A) (x : A)
      → head? (by_priority locale_compare view xs) ≡ some x
      → All (λ y. NoLaterPriority (view x) (view y)) xs
  unfolding by_priority
  priority_first xs x e =
      head?-sort _ (λ a b. NoLaterPriority (view a) (view b)) (λ a. omega arith)
        (λ a b c p q. omega arith) (λ a b g. keeps_priority locale_compare (view a) (view b) g)
        (λ a b g. swaps_priority locale_compare (view a) (view b) g) xs x e

  load_first :
      (xs : List A) (x : A)
      → head? (by_load locale_compare view xs) ≡ some x
      → All (λ y. NoMoreLoad (view x) (view y)) xs
  unfolding by_load
  load_first xs x e =
      head?-sort _ (λ a b. NoMoreLoad (view a) (view b)) (λ a. omega arith)
        (λ a b c p q. ground arith) (λ a b g. keeps_load locale_compare (view a) (view b) g)
        (λ a b g. swaps_load locale_compare (view a) (view b) g) xs x e

  All-by_priority {κ} :
      (P : A → Type κ) (xs : List A) → All P (by_priority locale_compare view xs) → All P xs
  unfolding by_priority
  All-by_priority P xs h = All-sort _ P xs h

  -- The mode `ordered` selects a candidate of the least priority number; `least_assigned` selects one
  -- of the least number of active bindings, and among those of the least priority number.
  select_endpoint_least :
      (xs : List A) (event_id : String) (b : StrategyBinding) (cursor : Option String) (w : A)
      → ((select_endpoint locale_compare view xs ordered event_id b cursor ≡ some w)
          → All (λ y. NoLaterPriority (view w) (view y)) xs)
        × ((select_endpoint locale_compare view xs least_assigned event_id b cursor ≡ some w)
            → All (λ y. NoMoreLoad (view w) (view y)) xs)
  unfolding select_endpoint
  select_endpoint_least [] event_id b cursor w = (λ e. tt, λ e. tt)
  select_endpoint_least (x ∷ xs) event_id b cursor w = (
    priority_first (x ∷ xs) w,
    λ e. All-by_priority _ (x ∷ xs) (load_first (by_priority locale_compare view (x ∷ xs)) w e),
  )

  by_priority-All {κ} :
      (P : A → Type κ) (xs : List A) → All P xs → All P (by_priority locale_compare view xs)
  unfolding by_priority
  by_priority-All P xs h = sort-All _ P xs h

  by_load-All {κ} :
      (P : A → Type κ) (xs : List A) → All P xs → All P (by_load locale_compare view xs)
  unfolding by_load
  by_load-All P xs h = sort-All _ P xs h

  length-by_priority : (xs : List A) → length (by_priority locale_compare view xs) ≡ length xs
  unfolding by_priority
  length-by_priority xs = length-sort _ xs

  length-by_load : (xs : List A) → length (by_load locale_compare view xs) ≡ length xs
  unfolding by_load
  length-by_load xs = length-sort _ xs

  head?-some : (ys : List A) → 0 < length ys → (w : A) × (head? ys ≡ some w)
  head?-some [] h = elim h [ ]
  head?-some (y ∷ ys) h = (y, refl)

  pick-some :
      (ys : List A) (mode : SelectionMode) (event_id : String) (b : StrategyBinding)
      (cursor : Option String)
      → 0 < length ys
      → (w : A) × (pick locale_compare view mode event_id b cursor ys ≡ some w)
  pick-some ys ordered event_id b cursor h = head?-some ys h
  pick-some ys least_assigned event_id b cursor h =
      head?-some (by_load locale_compare view ys) (omega (arith, length-by_load ys))
  pick-some ys random event_id b cursor h = get_elem?-some ys _ (mod-lt _ h)
  pick-some ys round_robin event_id b cursor h = get_elem?-some ys _ (mod-lt _ h)

  pick-All {κ} :
      (P : A → Type κ) (ys : List A) (mode : SelectionMode) (event_id : String)
      (b : StrategyBinding) (cursor : Option String) (w : A)
      → All P ys
      → pick locale_compare view mode event_id b cursor ys ≡ some w
      → P w
  pick-All P ys ordered event_id b cursor w h e = head?-All P ys h e
  pick-All P ys least_assigned event_id b cursor w h e =
      head?-All P (by_load locale_compare view ys) (by_load-All P ys h) e
  pick-All P ys random event_id b cursor w h e = get_elem?-All P ys _ h e
  pick-All P ys round_robin event_id b cursor w h e = get_elem?-All P ys _ h e

  pub select_endpoint-All {κ} :
      (P : A → Type κ) (xs : List A) (mode : SelectionMode) (event_id : String)
      (b : StrategyBinding) (cursor : Option String) (w : A)
      → All P xs
      → select_endpoint locale_compare view xs mode event_id b cursor ≡ some w
      → P w
  unfolding select_endpoint
  select_endpoint-All P [] mode event_id b cursor w h e = cc
  select_endpoint-All P (x ∷ xs) mode event_id b cursor w h e =
      pick-All P (by_priority locale_compare view (x ∷ xs)) mode event_id b cursor w
        (by_priority-All P (x ∷ xs) h) e

  -- In every mode, whatever the cursor and the event, one of the candidates is selected if there is
  -- any.
  pub select_endpoint_total :
      (xs : List A) (mode : SelectionMode) (event_id : String) (b : StrategyBinding)
      (cursor : Option String)
      → xs ≢ []
      → (w : A) × (select_endpoint locale_compare view xs mode event_id b cursor ≡ some w)
        × Memᴰ w xs
  unfolding select_endpoint
  select_endpoint_total [] mode event_id b cursor ne = absurd (ne refl)
  select_endpoint_total (x ∷ xs) mode event_id b cursor ne =
      let (w, e) =
        pick-some (by_priority locale_compare view (x ∷ xs)) mode event_id b cursor
          (omega (arith, length-by_priority (x ∷ xs))) in
      (
        w,
        e,
        select_endpoint-All (λ y. Memᴰ y (x ∷ xs)) (x ∷ xs) mode event_id b cursor w
            (All-mem (x ∷ xs)) e,
      )
