-- ===== src/Strategy/Select.antt =====
-- `selectEndpoint`: one candidate by the pool's selection mode.
use Prim.Native.Nat.{compare, Ordering, bit_xor}
use Prim.Native.String.{◌++◌ as concat}
use master_dns.Common.{
  ℕ, suc, ◌*◌, ◌%◌, ◌^◌, Bool, Option, none, some, List, [], ◌∷◌, String, ◌==◌, length, get_elem?,
  if◌then◌else◌,
}
use master_dns.Common.Text.{str_eq, utf16}
use master_dns.Strategy.Types.{
  SelectionMode, random, ordered, round_robin, least_assigned, StrategyEndpoint, StrategyBinding,
}
use master_dns.Strategy.Order.{sort, then_by}

-- FNV-1a over the UTF-16 units, on 32 bits.
unfoldable pub hash_units : ℕ → List ℕ → ℕ
hash_units h [] = h
hash_units h (u ∷ us) = hash_units (bit_xor h u * 16777619 % 2 ^ 32) us

unfoldable pub stable_hash : String → ℕ
unfolding hash_units
stable_hash value = hash_units 2166136261 (utf16 value)

-- The library's `localeCompare`, which the locale of the process decides.
module _ (locale_compare : String → String → Ordering) where
  unfoldable pub compare_priority : StrategyEndpoint → StrategyEndpoint → Ordering
  compare_priority a b = then_by (compare a.priority b.priority) (locale_compare a.id b.id)

  unfoldable pub compare_load : StrategyEndpoint → StrategyEndpoint → Ordering
  unfolding compare_priority
  compare_load a b =
      then_by (compare a.active_binding_count b.active_binding_count) (compare_priority a b)

module _ {ℓ} {A : Type ℓ} where
  abbrev pub head? : List A → Option A
  head? [] = none
  head? (x ∷ xs) = some x

  -- `findIndex`, plus one; zero where there is none.
  unfoldable pub index_after : (A → Bool) → List A → ℕ
  index_after p [] = 0
  index_after p (x ∷ xs) =
      let later = index_after p xs in if p x then 1 else if later == 0 then 0 else suc later

-- `cursor ? findIndex(endpoint => endpoint.id === cursor) : -1`, plus one.
abbrev pub cursor_index {ℓ} : {A : Type ℓ} → (A → StrategyEndpoint) → Option String → List A → ℕ
cursor_index view none xs = 0
cursor_index view (some cursor) xs =
    if str_eq cursor "" then 0 else index_after (λ e. str_eq (view e).id cursor) xs

module _ {ℓ} {A : Type ℓ} (locale_compare : String → String → Ordering)
    (view : A → StrategyEndpoint) where
  unfoldable pub by_priority : List A → List A
  by_priority xs = sort (λ a b. compare_priority locale_compare (view a) (view b)) xs

  unfoldable pub by_load : List A → List A
  by_load xs = sort (λ a b. compare_load locale_compare (view a) (view b)) xs

  abbrev pub pick : SelectionMode → String → StrategyBinding → Option String → List A → Option A
  pick ordered event_id b cursor xs = head? xs
  pick least_assigned event_id b cursor xs = head? (by_load xs)
  pick random event_id b cursor xs =
      get_elem? xs (stable_hash (concat event_id (concat ":" b.id)) % length xs)
  pick round_robin event_id b cursor xs = get_elem? xs (cursor_index view cursor xs % length xs)

  unfoldable pub select_endpoint :
      List A → SelectionMode → String → StrategyBinding → Option String → Option A
  unfolding by_priority by_load
  select_endpoint [] mode event_id b cursor = none
  select_endpoint (x ∷ xs) mode event_id b cursor =
      pick mode event_id b cursor (by_priority (x ∷ xs))
