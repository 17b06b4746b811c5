-- ===== src/Network/Splitting.antt =====
-- How the texts of groups with colons between them are cut at "%", "::" and ":".
use master_dns.Common.{
  ◌≡◌, refl, ap, ◌∙◌, ◌≢◌, ℕ, ◌≤◌, Bool, true, false, not, ◌&&◌, ◌||◌, List, [], ◌∷◌, ◌++◌, map,
  All, length, leb, ◌==◌, arith,
}
use mathlib.Core.List.{append_assoc}
use master_dns.Network.Parser.{split_on, split_double, before_zone, lower, parts_of}

-- A digit or one of the letters a to f.
abbrev pub is_hex : ℕ → Bool
is_hex u = (leb 48 u && leb u 57) || (leb 97 u && leb u 102)

-- One digit to four, below 2 ^ 16.
abbrev pub IsGroup : List ℕ → Type 0
IsGroup group = (group ≢ []) × (length group ≤ 4) × All (λ u. is_hex u ≡ true) group

-- The groups with colons between them.
abbrev pub join : List (List ℕ) → List ℕ
join [] = []
join (g ∷ []) = g
join (g ∷ h ∷ groups) = g ++ (58 ∷ join (h ∷ groups))

-- Two runs of groups about "::".
abbrev pub compressed : List (List ℕ) → List (List ℕ) → List ℕ
compressed heads tails = join heads ++ (58 ∷ 58 ∷ join tails)

abbrev pub IsKept : ℕ → Type 0
IsKept u = ((u == 37) ≡ false) × (lower u ≡ u)

pub before_zone_kept : (us : List ℕ) → All IsKept us → map lower (before_zone us) ≡ us
before_zone_kept [] h = refl
before_zone_kept (u ∷ us) ((plain, same), h) = rw (plain, same, before_zone_kept us h) refl

hex-IsKept : (u : ℕ) → is_hex u ≡ true → IsKept u
hex-IsKept u h = (ground arith, ground arith)

pub colon-IsKept : IsKept 58
colon-IsKept = (refl, refl)

group-AreKept : (g : List ℕ) → All (λ u. is_hex u ≡ true) g → All IsKept g
group-AreKept [] h = tt
group-AreKept (u ∷ g) (own, h) = (hex-IsKept u own, group-AreKept g h)

pub append-AreKept : (xs ys : List ℕ) → All IsKept xs → All IsKept ys → All IsKept (xs ++ ys)
append-AreKept [] ys hx hy = hy
append-AreKept (x ∷ xs) ys (own, hx) hy = (own, append-AreKept xs ys hx hy)

pub join-AreKept : (gs : List (List ℕ)) → All IsGroup gs → All IsKept (join gs)
join-AreKept [] h = tt
join-AreKept (g ∷ []) ((_, _, own), h) = group-AreKept g own
join-AreKept (g ∷ k ∷ gs) ((_, _, own), h) =
    append-AreKept g (58 ∷ join (k ∷ gs)) (group-AreKept g own)
      (colon-IsKept, join-AreKept (k ∷ gs) h)

not_colon : (u : ℕ) → is_hex u ≡ true → (u == 58) ≡ false
not_colon u h = ground arith

-- A text that does not start with a colon.
starts_plain : List ℕ → Bool
starts_plain [] = true
starts_plain (u ∷ us) = not (u == 58)

split_double_unit :
    (u : ℕ) (us : List ℕ)
    → (u == 58) ≡ false
    → split_double (u ∷ us) ≡ (u ∷ (split_double us).0, (split_double us).1)
split_double_unit u [] h = refl
split_double_unit u (v ∷ us) h = rw h refl

split_double_colon :
    (us : List ℕ)
    → starts_plain us ≡ true
    → split_double (58 ∷ us) ≡ (58 ∷ (split_double us).0, (split_double us).1)
unfolding starts_plain
split_double_colon [] h = refl
split_double_colon (v ∷ us) h = rw (not_true (v == 58) h) refl
  where
    not_true : (b : Bool) → not b ≡ true → b ≡ false
    not_true b e = ground arith

-- What comes before the first "::" of a text that starts with `xs`.
unfoldable pub After : List ℕ → List ℕ → Type 0
After xs us = split_double (xs ++ us) ≡ (xs ++ (split_double us).0, (split_double us).1)

group-After : (g us : List ℕ) → All (λ u. is_hex u ≡ true) g → After g us
unfolding After
group-After [] us h = refl
group-After (u ∷ g) us (own, h) =
    rw (split_double_unit u (g ++ us) (not_colon u own), group-After g us h) refl

join-starts :
    (g : List ℕ) (gs : List (List ℕ)) (us : List ℕ)
    → IsGroup g
    → starts_plain (join (g ∷ gs) ++ us) ≡ true
unfolding starts_plain
join-starts [] gs us (filled, _, _) = absurd (filled refl)
join-starts (u ∷ g) [] us (filled, _, (own, h)) = rw (not_colon u own) refl
join-starts (u ∷ g) (k ∷ gs) us (filled, _, (own, h)) = rw (not_colon u own) refl

pub join-After : (gs : List (List ℕ)) (us : List ℕ) → All IsGroup gs → After (join gs) us
unfolding After
join-After [] us h = refl
join-After (g ∷ []) us ((_, _, own), h) = group-After g us own
join-After (g ∷ k ∷ gs) us ((_, _, own), (next, h)) =
    rw
      (
        append_assoc g (58 ∷ join (k ∷ gs)) us,
        group-After g (58 ∷ (join (k ∷ gs) ++ us)) own,
        split_double_colon (join (k ∷ gs) ++ us) (join-starts k gs us next),
        join-After (k ∷ gs) us (next, h),
        append_assoc g (58 ∷ join (k ∷ gs)) (split_double us).0,
      )
      refl

split_group : (g : List ℕ) → All (λ u. is_hex u ≡ true) g → split_on 58 g ≡ g ∷ []
split_group [] h = refl
split_group (u ∷ g) (own, h) = rw (not_colon u own, split_group g h) refl

split_after :
    (g us : List ℕ)
    → All (λ u. is_hex u ≡ true) g
    → split_on 58 (g ++ (58 ∷ us)) ≡ g ∷ split_on 58 us
split_after [] us h = refl
split_after (u ∷ g) us (own, h) = rw (not_colon u own, split_after g us h) refl

split-join :
    (g : List ℕ) (gs : List (List ℕ)) → All IsGroup (g ∷ gs) → split_on 58 (join (g ∷ gs)) ≡ g ∷ gs
split-join g [] ((_, _, own), h) = split_group g own
split-join g (k ∷ gs) ((_, _, own), h) =
    split_after g (join (k ∷ gs)) own ∙ ap (λ r. g ∷ r) (split-join k gs h)

parts_filled : (us : List ℕ) → us ≢ [] → parts_of us ≡ split_on 58 us
parts_filled [] filled = absurd (filled refl)
parts_filled (u ∷ us) filled = refl

join-filled : (g : List ℕ) (gs : List (List ℕ)) → IsGroup g → join (g ∷ gs) ≢ []
join-filled [] gs (filled, _, _) = absurd (filled refl)
join-filled (u ∷ g) [] (filled, _, _) = filled
join-filled (u ∷ g) (k ∷ gs) own = λ e. cc

pub parts-join : (gs : List (List ℕ)) → All IsGroup gs → parts_of (join gs) ≡ gs
parts-join [] h = refl
parts-join (g ∷ gs) (own, h) =
    parts_filled (join (g ∷ gs)) (join-filled g gs own) ∙ split-join g gs (own, h)
