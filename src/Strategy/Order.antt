-- ===== src/Strategy/Order.antt =====
-- `Array.prototype.sort`: a stable sort by a comparator, and the default order of texts.
use Prim.Native.Nat.{compare, Ordering}
use master_dns.Common.{ℕ, Bool, true, false, List, [], ◌∷◌, String, if◌then◌else◌}
use master_dns.Common.Text.{utf16}

abbrev pub is_gt : Ordering → Bool
is_gt Ordering.gt = true
is_gt _ = false

-- `first || second` on the results of two comparisons.
abbrev pub then_by : Ordering → Ordering → Ordering
then_by Ordering.eq second = second
then_by first second = first

module _ {ℓ} {A : Type ℓ} (cmp : A → A → Ordering) where
  unfoldable pub insert : A → List A → List A
  insert x [] = x ∷ []
  insert x (y ∷ ys) = let rest = insert x ys in if is_gt (cmp x y) then y ∷ rest else x ∷ y ∷ ys

  unfoldable pub sort : List A → List A
  unfolding insert
  sort [] = []
  sort (x ∷ xs) = insert x (sort xs)

unfoldable pub compare_units : List ℕ → List ℕ → Ordering
compare_units [] [] = Ordering.eq
compare_units [] (b ∷ bs) = Ordering.lt
compare_units (a ∷ as') [] = Ordering.gt
compare_units (a ∷ as') (b ∷ bs) = then_by (compare a b) (compare_units as' bs)

-- The order of `sort()` without a comparator: by UTF-16 code units.
unfoldable pub compare_texts : String → String → Ordering
unfolding compare_units
compare_texts a b = compare_units (utf16 a) (utf16 b)
