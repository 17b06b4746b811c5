-- ===== src/Common/Text.antt =====
-- Texts as the source compares them: equality, membership, UTF-16 units.
use Prim.Native.Nat.{ℕ, ◌+◌, ◌-◌, ◌/◌, ◌%◌}
use Prim.Native.Char.{code}
use Prim.Native.String.{String}
use mathlib.Core.Path.{◌≡◌}
use mathlib.Core.Logic.{◌↔◌}
use mathlib.Core.Bool.{Bool, true, false, ◌||◌, ◌&&◌}
use mathlib.Core.List.{List, [], ◌∷◌, reverse}
use text.Mathlib.Text.{◌==◌ as text_eq}
use text.Mathlib.TextEquality.{eq_iff}
use master_dns.Common.Tests.{ltb, ◌==◌, if◌then◌else◌}

-- `a === b` on strings.
abbrev pub str_eq : String → String → Bool
str_eq a b = text_eq a b

pub str_eq_iff : (a b : String) → (str_eq a b ≡ true) ↔ (a ≡ b)
str_eq_iff a b = eq_iff a b

-- `ids.includes(id)`
abbrev pub includes : List String → String → Bool
includes [] id = false
includes (x ∷ xs) id = str_eq x id || includes xs id

-- The UTF-16 code units of a text, which `charCodeAt` and the default `sort` read.
abbrev pub utf16 : String → List ℕ
utf16 String.[] = []
utf16 (String.◌∷◌ c s) =
    let rest = utf16 s in
    let n : ℕ = code c in
    if ltb n 0x10000
    then n ∷ rest
    else (0xd800 + (n - 0x10000) / 0x400) ∷ (0xdc00 + (n - 0x10000) % 0x400) ∷ rest

-- `a.startsWith(b)` on the code units of two texts.
abbrev pub starts_with : List ℕ → List ℕ → Bool
starts_with units [] = true
starts_with [] (p ∷ ps) = false
starts_with (u ∷ us) (p ∷ ps) = let rest = starts_with us ps in u == p && rest

-- `a.endsWith(b)`
abbrev pub ends_with : List ℕ → List ℕ → Bool
ends_with units suffix = starts_with (reverse units) (reverse suffix)
