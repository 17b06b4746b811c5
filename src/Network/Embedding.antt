-- ===== src/Network/Embedding.antt =====
-- The IPv6 addresses that are accepted: the IPv4-mapped ones and those of 2000::/3.
use master_dns.Common.{
  ℕ, ◌+◌, ◌-◌, ◌*◌, ◌/◌, ◌%◌, ◌^◌, ◌≤◌, ◌<◌, ◌≡◌, ◌⊎◌, ◌==◌, Bool, true, false, not, ◌||◌, [], ◌∷◌,
  arith, ==_iff, if◌then◌else◌, inl, inr, refl,
}
use master_dns.Network.{
  is_blocked_ipv4, is_blocked_ipv6, is_mapped, has_ipv6_prefix, octets_of, is_special_ipv6,
  multicast, link_local, site_local, unique_local,
}
use master_dns.Network.Ranges.{ipv4_value}

-- `::ffff:a.b.c.d`
abbrev pub mapped_value : (a b c d : ℕ) → ℕ
mapped_value a b c d = 0xffff * 2 ^ 32 + ipv4_value a b c d

octets-ipv4_value :
    (a b c d : ℕ)
    → a < 256
    → b < 256
    → c < 256
    → d < 256
    → octets_of (mapped_value a b c d % 2 ^ 32) ≡ (a ∷ b ∷ c ∷ d ∷ [])
octets-ipv4_value a b c d ha hb hc hd =
    let p : (mapped_value a b c d % 2 ^ 32) / 2 ^ 24 % 256 ≡ a = omega arith in
    let q : (mapped_value a b c d % 2 ^ 32) / 2 ^ 16 % 256 ≡ b = omega arith in
    let r : (mapped_value a b c d % 2 ^ 32) / 2 ^ 8 % 256 ≡ c = omega arith in
    let s : (mapped_value a b c d % 2 ^ 32) % 256 ≡ d = omega arith in rw (p, q, r, s) refl

mapped_value-IsMapped :
    (a b c d : ℕ) → a < 256 → b < 256 → c < 256 → d < 256 → is_mapped (mapped_value a b c d) ≡ true
mapped_value-IsMapped a b c d ha hb hc hd = ground arith

-- An IPv4-mapped IPv6 address is refused exactly if the IPv4 address within it is.
pub is_blocked_ipv6-mapped :
    (a b c d : ℕ) (p l : Bool)
    → a < 256
    → b < 256
    → c < 256
    → d < 256
    → is_blocked_ipv6 (mapped_value a b c d) p l ≡ is_blocked_ipv4 (a ∷ b ∷ c ∷ d ∷ []) p l
unfolding is_blocked_ipv6
is_blocked_ipv6-mapped a b c d p l ha hb hc hd =
    let zero : (mapped_value a b c d == 0) ≡ false = ground arith in
    let one : (mapped_value a b c d == 1) ≡ false = ground arith in
    rw (zero, one, mapped_value-IsMapped a b c d ha hb hc hd, octets-ipv4_value a b c d ha hb hc hd)
      refl

unicast_bounds :
    (v : ℕ) → has_ipv6_prefix v (0x2000 * 2 ^ 112) 3 ≡ true → (2 ^ 125 ≤ v) × (v < 2 ^ 126)
unfolding has_ipv6_prefix
unicast_bounds v h = ground arith

-- The value shares its first `bits` bits with the prefix.
abbrev pub InPrefix : (value prefix bits : ℕ) → Type 0
InPrefix value prefix bits = value / 2 ^ (128 - bits) ≡ prefix / 2 ^ (128 - bits)

-- In 2000::/3, and outside 2001::/23, 2001:db8::/32, 2002::/16 and 3fff::/20.
abbrev pub IsGlobalUnicast : ℕ → Type 0
IsGlobalUnicast v =
    (2 ^ 125 ≤ v × v < 2 ^ 126)
    × ¬ InPrefix v (0x2001 * 2 ^ 112) 23
    × ¬ InPrefix v (0x20010db8 * 2 ^ 96) 32
    × ¬ InPrefix v (0x2002 * 2 ^ 112) 16
    × ¬ InPrefix v (0x3fff * 2 ^ 112) 20

special_lem : (v : ℕ) → is_special_ipv6 v ≡ false → IsGlobalUnicast v
unfolding is_special_ipv6 has_ipv6_prefix
special_lem v h = ground arith

first_accepting :
    (z o n m b c d u s : Bool)
    → (if z
        then true
        else if o
        then n
        else if m
        then b
        else if c
        then true
        else if d
        then true
        else if u
        then true
        else s)
      ≡ false
    → (o ≡ true × n ≡ false) ⊎ (m ≡ true × b ≡ false) ⊎ s ≡ false
first_accepting z o n m b c d u s h = ground arith

-- Without `allow_private` an IPv6 address is accepted only if it is the loopback address and
-- `allow_loopback` is set, or an IPv4-mapped address whose last 32 bits are accepted as IPv4,
-- or lies in 2000::/3 and outside 2001::/23, 2001:db8::/32, 2002::/16 and 3fff::/20.
pub is_blocked_ipv6-accepted :
    (v : ℕ) (l : Bool)
    → is_blocked_ipv6 v false l ≡ false
    → (v ≡ 1 × l ≡ true)
      ⊎ (v / 2 ^ 32 ≡ 0xffff × is_blocked_ipv4 (octets_of (v % 2 ^ 32)) false l ≡ false)
      ⊎ IsGlobalUnicast v
unfolding is_blocked_ipv6
is_blocked_ipv6-accepted v l h =
    elim (first_accepting (v == 0) (v == 1) (not l) (is_mapped v)
      (is_blocked_ipv4 (octets_of (v % 2 ^ 32)) false l) (has_ipv6_prefix v multicast 8)
      (has_ipv6_prefix v link_local 10 || has_ipv6_prefix v site_local 10)
      (has_ipv6_prefix v unique_local 7) (is_special_ipv6 v) h) [
        | inl (e, f) ↦ inl ((==_iff v 1).0 e, ground arith)
        | inr (inl (e, f)) ↦ inr (inl ((==_iff (v / 2 ^ 32) 0xffff).0 e, f))
        | inr (inr e) ↦ inr (inr (special_lem v e))
      ]
