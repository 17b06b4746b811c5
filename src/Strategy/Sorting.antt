-- ===== src/Strategy/Sorting.antt =====
-- Sorting keeps the elements, and puts a least one first.
use Prim.Native.Nat.{Ordering}
use mathlib.Core.Option.{some-injective}
use mathlib.Core.List.{Memᴰ}
use master_dns.Common.{
  suc, ◌≡◌, refl, ap, inl, inr, true, false, some, List, [], ◌∷◌, arith, length, Bool-cases, subst,
  All, ◌∙◌, All-map,
}
use master_dns.Strategy.Order.{insert, sort, is_gt}
use master_dns.Strategy.Select.{head?}

module _ {ℓ} {A : Type ℓ} (cmp : A → A → Ordering) where
  length-insert : (x : A) (xs : List A) → length (insert cmp x xs) ≡ suc (length xs)
  unfolding insert
  length-insert x [] = refl
  length-insert x (y ∷ ys) = ground (arith, length-insert x ys)

  pub length-sort : (xs : List A) → length (sort cmp xs) ≡ length xs
  unfolding sort
  length-sort [] = refl
  length-sort (x ∷ xs) = length-insert x (sort cmp xs) ∙ ap suc (length-sort xs)

module _ {ℓ κ} {A : Type ℓ} (cmp : A → A → Ordering) (P : A → Type κ) where
  insert-All : (x : A) (xs : List A) → P x → All P xs → All P (insert cmp x xs)
  unfolding insert
  insert-All x [] p h = (p, tt)
  insert-All x (y ∷ ys) p (q, h) = elim (Bool-cases (is_gt (cmp x y))) [
    | inl e ↦ rw e (q, insert-All x ys p h)
    | inr e ↦ rw e (p, (q, h))
  ]

  All-insert : (x : A) (xs : List A) → All P (insert cmp x xs) → P x × All P xs
  unfolding insert
  All-insert x [] h = h
  All-insert x (y ∷ ys) h = elim (Bool-cases (is_gt (cmp x y))) [
    | inl e ↦ let (q, r) = rw e at h in let (p, s) = All-insert x ys r in (p, (q, s))
    | inr e ↦ rw e at h
  ]

  pub sort-All : (xs : List A) → All P xs → All P (sort cmp xs)
  unfolding sort
  sort-All [] h = tt
  sort-All (x ∷ xs) (p, h) = insert-All x (sort cmp xs) p (sort-All xs h)

  pub All-sort : (xs : List A) → All P (sort cmp xs) → All P xs
  unfolding sort
  All-sort [] h = tt
  All-sort (x ∷ xs) h = let (p, r) = All-insert x (sort cmp xs) h in (p, All-sort xs r)

-- The head of the sorted list is related to all, where `R` is what the comparator decides.
module _ {ℓ κ} {A : Type ℓ} (cmp : A → A → Ordering) (R : A → A → Type κ) (refl_R : (x : A) → R x x)
    (trans_R : (x y z : A) → R x y → R y z → R x z)
    (keeps : (x y : A) → is_gt (cmp x y) ≡ false → R x y)
    (swaps : (x y : A) → is_gt (cmp x y) ≡ true → R y x) where
  -- The head is related to all of the rest.
  abbrev Least : List A → Type κ
  Least [] = Unit
  Least (x ∷ xs) = All (R x) xs

  insert-Least : (x : A) (xs : List A) → Least xs → Least (insert cmp x xs)
  unfolding insert
  insert-Least x [] h = tt
  insert-Least x (y ∷ ys) h = elim (Bool-cases (is_gt (cmp x y))) [
    | inl g ↦ rw g (insert-All cmp (R y) x ys (swaps x y g) h)
    | inr g ↦ rw g (keeps x y g, All-map (R y) (R x) ys (λ z. trans_R x y z (keeps x y g)) h)
  ]

  sort-Least : (xs : List A) → Least (sort cmp xs)
  unfolding sort
  sort-Least [] = tt
  sort-Least (x ∷ xs) = insert-Least x (sort cmp xs) (sort-Least xs)

  Least-of_All : (ys : List A) (x : A) → Least ys → head? ys ≡ some x → All (R x) ys
  Least-of_All [] x h e = tt
  Least-of_All (y ∷ ys) x h e = subst (λ z. All (R z) (y ∷ ys)) (some-injective _ _ e) (refl_R y, h)

  pub head?-sort : (xs : List A) (x : A) → head? (sort cmp xs) ≡ some x → All (R x) xs
  head?-sort xs x e = All-sort cmp (R x) xs (Least-of_All (sort cmp xs) x (sort-Least xs) e)

pub head?-All {ℓ κ} :
    {A : Type ℓ} (P : A → Type κ) (ys : List A) {w : A} → All P ys → head? ys ≡ some w → P w
head?-All P [] h e = cc
head?-All P (y ∷ ys) (p, h) e = subst P (some-injective _ _ e) p

pub All-mem {ℓ} : {A : Type ℓ} (xs : List A) → All (λ y. Memᴰ y xs) xs
All-mem [] = tt
All-mem (x ∷ xs) = (
  Memᴰ.head refl,
  All-map (λ y. Memᴰ y xs) (λ y. Memᴰ y (x ∷ xs)) xs (λ y m. Memᴰ.tail m) (All-mem xs),
)
