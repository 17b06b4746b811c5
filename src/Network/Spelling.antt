-- ===== src/Network/Spelling.antt =====
-- The texts of an IPv6 address are read as the number that they spell.
use master_dns.Common.{
  ◌≡◌, refl, sym, ap, ◌∙◌, ℕ, suc, zero, ◌+◌, ◌-◌, ◌≤◌, true, false, Option, none, List, [], ◌∷◌,
  ◌++◌, map, All, any, length, replicate, ◌==◌, ok, arith, subst, ◌<◌, ◌≢◌,
}
use mathlib.Core.List.{append-nil}
use master_dns.Network.{ipv6, NetworkTargetPolicy, assert_allowed_network_target}
use master_dns.Network.Parser.{
  split_double, hex_value, parts_of, expand_all, address_from, of_parts, fill, assemble,
  normalize_ipv6, assert_allowed_text,
}
use master_dns.Network.Numerals.{
  positional, spelling, is_hex-hex_char, hex_value-spelling, address_from_zero,
}
use master_dns.Network.Splitting.{
  is_hex, IsGroup, join, compressed, After, before_zone_kept, append-AreKept, join-AreKept,
  colon-IsKept, join-After, parts-join,
}

no_dot : (g : List ℕ) → All (λ u. is_hex u ≡ true) g → any (λ u. u == 46) g ≡ false
no_dot [] h = refl
no_dot (u ∷ g) (own, h) = rw (no_dot g h) (ground arith)

expand-groups : (gs : List (List ℕ)) → All IsGroup gs → expand_all gs ≡ map hex_value gs
expand-groups [] h = refl
expand-groups (g ∷ gs) ((_, _, own), h) = rw (no_dot g own, expand-groups gs h) refl

length-map : (gs : List (List ℕ)) → length (map hex_value gs) ≡ length gs
length-map [] = refl
length-map (g ∷ gs) = ap suc (length-map gs)

length-append : (xs ys : List ℕ) → length (xs ++ ys) ≡ length xs + length ys
length-append [] ys = omega arith
length-append (x ∷ xs) ys = let rest = length-append xs ys in omega arith

length-replicate : (n : ℕ) → length {A = ℕ} (replicate n 0) ≡ n
length-replicate zero = refl
length-replicate (suc n) = ap suc (length-replicate n)

length-fill :
    (heads tails : List (List ℕ))
    → length heads + length tails ≤ 8
    → length (fill (map hex_value heads) (map hex_value tails)) ≡ 8
length-fill heads tails h =
    rw
      (
        length-append (map hex_value heads) (
            replicate (8 - (length (map hex_value heads) + length (map hex_value tails))) 0
            ++ map hex_value tails),
        length-append
            (replicate (8 - (length (map hex_value heads) + length (map hex_value tails))) 0)
            (map hex_value tails),
        length-replicate (8 - (length (map hex_value heads) + length (map hex_value tails))),
        length-map heads,
        length-map tails,
      )
      (omega arith)

of_parts_eight : (parts : List ℕ) → length parts ≡ 8 → of_parts parts ≡ ok (address_from 0 parts)
of_parts_eight parts h = rw h refl

split_double-join : (gs : List (List ℕ)) → All IsGroup gs → split_double (join gs) ≡ (join gs, none)
unfolding After
split_double-join gs h =
    ap split_double (sym (append-nil (join gs)))
    ∙ join-After gs [] h
    ∙ ap (λ us. (us, none)) (append-nil (join gs))

values-join :
    (gs : List (List ℕ)) → All IsGroup gs → expand_all (parts_of (join gs)) ≡ map hex_value gs
values-join gs h = ap expand_all (parts-join gs h) ∙ expand-groups gs h

normalize_ipv6-join :
    (gs : List (List ℕ))
    → All IsGroup gs
    → length gs ≡ 8
    → normalize_ipv6 (join gs) ≡ ok (address_from 0 (map hex_value gs))
unfolding normalize_ipv6
normalize_ipv6-join gs h eight =
    ap (λ us. assemble (split_double us)) (before_zone_kept (join gs) (join-AreKept gs h))
    ∙ ap assemble (split_double-join gs h)
    ∙ ap of_parts (values-join gs h)
    ∙ of_parts_eight (map hex_value gs) (length-map gs ∙ eight)

-- The values of two runs of groups about "::".
abbrev pub shortened_values : List (List ℕ) → List (List ℕ) → List ℕ
shortened_values heads tails = fill (map hex_value heads) (map hex_value tails)

normalize_ipv6-compressed :
    (heads tails : List (List ℕ))
    → All IsGroup heads
    → All IsGroup tails
    → length heads + length tails ≤ 8
    → normalize_ipv6 (compressed heads tails) ≡ ok (address_from 0 (shortened_values heads tails))
unfolding normalize_ipv6 After
normalize_ipv6-compressed heads tails hh ht short =
    ap (λ us. assemble (split_double us))
      (before_zone_kept (compressed heads tails) (
        append-AreKept (join heads) (58 ∷ 58 ∷ join tails) (join-AreKept heads hh)
          (colon-IsKept, (colon-IsKept, join-AreKept tails ht))))
    ∙ ap assemble (join-After heads (58 ∷ 58 ∷ join tails) hh)
    ∙ ap
        (λ us.
          of_parts
            (fill (expand_all (parts_of us)) (expand_all (parts_of (split_double (join tails)).0))))
        (append-nil (join heads))
    ∙ ap
        (λ (r : List ℕ × Option (List ℕ)).
          of_parts (fill (expand_all (parts_of (join heads))) (expand_all (parts_of r.0))))
        (split_double-join tails ht)
    ∙ ap (λ hs. of_parts (fill hs (expand_all (parts_of (join tails))))) (values-join heads hh)
    ∙ ap (λ ts. of_parts (fill (map hex_value heads) ts)) (values-join tails ht)
    ∙ of_parts_eight (shortened_values heads tails) (length-fill heads tails short)

-- A group is a number of one digit to four.
abbrev pub IsNumber : List ℕ → Type 0
IsNumber digits = (digits ≢ []) × (length digits ≤ 4) × All (λ d. d < 16) digits

-- The text of the groups, and the values that they have.
abbrev pub texts : List (List ℕ) → List (List ℕ)
texts groups = map spelling groups

abbrev pub numbers : List (List ℕ) → List ℕ
numbers groups = map (positional 16) groups

spelling-digits : (ds : List ℕ) → All (λ d. d < 16) ds → All (λ u. is_hex u ≡ true) (spelling ds)
spelling-digits [] h = tt
spelling-digits (d ∷ ds) (small, h) = (is_hex-hex_char d small, spelling-digits ds h)

length-spelling : (ds : List ℕ) → length (spelling ds) ≡ length ds
length-spelling [] = refl
length-spelling (d ∷ ds) = ap suc (length-spelling ds)

spelling-IsGroup : (ds : List ℕ) → IsNumber ds → IsGroup (spelling ds)
spelling-IsGroup [] (filled, short, small) = absurd (filled refl)
spelling-IsGroup (d ∷ ds) (filled, short, small) = (
  λ e. cc,
  subst (λ n. n ≤ 4) (sym (length-spelling (d ∷ ds))) short,
  spelling-digits (d ∷ ds) small,
)

texts-AreGroups : (gs : List (List ℕ)) → All IsNumber gs → All IsGroup (texts gs)
texts-AreGroups [] h = tt
texts-AreGroups (g ∷ gs) (own, h) = (spelling-IsGroup g own, texts-AreGroups gs h)

values-texts : (gs : List (List ℕ)) → All IsNumber gs → map hex_value (texts gs) ≡ numbers gs
values-texts [] h = refl
values-texts (g ∷ gs) ((filled, short, small), h) =
    rw (hex_value-spelling g small, values-texts gs h) refl

length-texts : (gs : List (List ℕ)) → length (texts gs) ≡ length gs
length-texts [] = refl
length-texts (g ∷ gs) = ap suc (length-texts gs)

-- A text of eight groups, or of groups about "::" that stands for groups of zero, and the number of
-- which they are the digits in base 65536.
pub data Spells : List ℕ → ℕ → Type 0 where
  in_full :
      (groups : List (List ℕ))
      → All IsNumber groups
      → length groups ≡ 8
      → Spells (join (texts groups)) (positional 65536 (numbers groups))
  shortened :
      (heads : List (List ℕ)) (zeros : ℕ) (tails : List (List ℕ))
      → All IsNumber heads
      → All IsNumber tails
      → length heads + (zeros + length tails) ≡ 8
      → Spells
          (compressed (texts heads) (texts tails))
          (positional 65536 (numbers heads ++ (replicate zeros 0 ++ numbers tails)))

length-numbers : (gs : List (List ℕ)) → length (numbers gs) ≡ length gs
length-numbers [] = refl
length-numbers (g ∷ gs) = ap suc (length-numbers gs)

filled_values :
    (heads : List (List ℕ)) (zeros : ℕ) (tails : List (List ℕ))
    → All IsNumber heads
    → All IsNumber tails
    → length heads + (zeros + length tails) ≡ 8
    → shortened_values (texts heads) (texts tails)
      ≡ numbers heads ++ (replicate zeros 0 ++ numbers tails)
filled_values heads zeros tails hh ht eight =
    rw (values-texts heads hh, values-texts tails ht)
      (ap (λ n. numbers heads ++ (replicate n 0 ++ numbers tails)) missing)
  where
    missing : 8 - (length (numbers heads) + length (numbers tails)) ≡ zeros
    missing = omega (arith, length-numbers heads, length-numbers tails)

Spells-normalize :
    (text : List ℕ) (number : ℕ) → Spells text number → normalize_ipv6 text ≡ ok number
Spells-normalize _ _ (in_full groups h eight) =
    normalize_ipv6-join (texts groups) (texts-AreGroups groups h) (length-texts groups ∙ eight)
    ∙ ap (λ vs. ok (address_from 0 vs)) (values-texts groups h)
    ∙ ap ok (address_from_zero (numbers groups))
Spells-normalize _ _ (shortened heads zeros tails hh ht eight) =
    normalize_ipv6-compressed (texts heads) (texts tails) (texts-AreGroups heads hh)
      (texts-AreGroups tails ht) (omega (arith, length-texts heads, length-texts tails))
    ∙ ap (λ vs. ok (address_from 0 vs)) (filled_values heads zeros tails hh ht eight)
    ∙ ap ok (address_from_zero (numbers heads ++ (replicate zeros 0 ++ numbers tails)))

-- A text of groups of one to four hexadecimal digits with colons between them, eight of them or at
-- most eight about one "::" that stands for as many groups of zero as are missing, is read as the
-- number that has the groups as its digits in base 65536, where each group is the number that has its
-- own digits in base 16. Where `isIP` takes the text for IPv6, the verdict on it is the one on that
-- number. Digits above nine are small letters, and no part is an IPv4 address.
pub assert_allowed_text-spelled :
    (is_ip : List ℕ → ℕ) (policy : NetworkTargetPolicy) (text : List ℕ) (number : ℕ)
    → Spells text number
    → is_ip text ≡ 6
    → (normalize_ipv6 text ≡ ok number)
      × (assert_allowed_text is_ip text policy ≡ assert_allowed_network_target (ipv6 number) policy)
unfolding assert_allowed_text
assert_allowed_text-spelled is_ip policy text number spells six =
    (Spells-normalize text number spells, rw (six, Spells-normalize text number spells) refl)
