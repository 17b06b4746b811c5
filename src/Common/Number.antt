-- ===== src/Common/Number.antt =====
-- JavaScript's `number` where the source tests for NaN and infinity. Fractions are left out: the
-- values are counters, thresholds and epoch milliseconds.
use Prim.Native.Nat.{ℕ, suc, ◌^◌, ◌-◌}
use mathlib.Core.Bool.{Bool, true, false}
use master_dns.Common.Tests.{ltb, leb}

-- `neg n` is -(n + 1).
pub data Number : Type 0 where
  num : ℕ → Number
  neg : ℕ → Number
  infinity : Number
  nan : Number

-- `a < b`; every comparison with NaN is false.
abbrev pub less : Number → Number → Bool
less nan b = false
less infinity b = false
less (num a) (num b) = ltb a b
less (num a) infinity = true
less (num a) b = false
less (neg a) (num b) = true
less (neg a) (neg b) = ltb b a
less (neg a) infinity = true
less (neg a) nan = false

-- `b >= a`
abbrev pub at_most : Number → Number → Bool
at_most nan b = false
at_most infinity infinity = true
at_most infinity b = false
at_most (num a) (num b) = leb a b
at_most (num a) infinity = true
at_most (num a) b = false
at_most (neg a) (num b) = true
at_most (neg a) (neg b) = leb b a
at_most (neg a) infinity = true
at_most (neg a) nan = false

-- `Number.isFinite`
abbrev pub is_finite : Number → Bool
is_finite (num a) = true
is_finite (neg a) = true
is_finite _ = false

abbrev pub max_safe_integer : ℕ
max_safe_integer = 2 ^ 53 - 1

-- `Number.isSafeInteger`
abbrev pub is_safe_integer : Number → Bool
is_safe_integer (num a) = leb a max_safe_integer
is_safe_integer (neg a) = leb (suc a) max_safe_integer
is_safe_integer _ = false
