-- ===== src/Network/Ranges.antt =====
-- The refused addresses as CIDR ranges.
use master_dns.Common.{
  ℕ, ◌+◌, ◌-◌, ◌*◌, ◌/◌, ◌^◌, ◌<◌, ◌≡◌, ◌↔◌, ◌⊎◌, Bool, true, false, not, ◌&&◌, ◌||◌, ltb, [], ◌∷◌,
  inl, inr, ⊎_elim, arith,
}
use master_dns.Network.{is_private_ipv4, is_reserved_ipv4, is_blocked_ipv4}

-- The 32 bits of four octets.
abbrev pub ipv4_value : (a b c d : ℕ) → ℕ
ipv4_value a b c d = a * 2 ^ 24 + b * 2 ^ 16 + c * 2 ^ 8 + d

-- The address shares its first `bits` bits with the network `a.b.c.0`.
abbrev pub InCidr : (address a b c bits : ℕ) → Type 0
InCidr address a b c bits = address / 2 ^ (32 - bits) ≡ ipv4_value a b c 0 / 2 ^ (32 - bits)

-- The reserved ranges, without 127.0.0.0/8.
abbrev pub InReserved : ℕ → Type 0
InReserved x =
    InCidr x 0 0 0 8
    ⊎ InCidr x 224 0 0 3
    ⊎ InCidr x 169 254 0 16
    ⊎ InCidr x 192 0 0 24
    ⊎ InCidr x 192 0 2 24
    ⊎ InCidr x 198 18 0 15
    ⊎ InCidr x 198 51 100 24
    ⊎ InCidr x 203 0 113 24

abbrev pub InPrivate : ℕ → Type 0
InPrivate x =
    InCidr x 10 0 0 8 ⊎ InCidr x 100 64 0 10 ⊎ InCidr x 172 16 0 12 ⊎ InCidr x 192 168 0 16

private_ranges :
    (a b c d : ℕ)
    → a < 256
    → b < 256
    → c < 256
    → d < 256
    → (is_private_ipv4 a b ≡ true) ↔ InPrivate (ipv4_value a b c d)
private_ranges a b c d ha hb hc hd = (λ h. ground arith, λ h. ground arith)

reserved_ranges :
    (a b c d : ℕ)
    → a < 256
    → b < 256
    → c < 256
    → d < 256
    → (is_reserved_ipv4 a b c true ≡ true) ↔ InReserved (ipv4_value a b c d)
reserved_ranges a b c d ha hb hc hd = (λ h. ground arith, λ h. ground arith)

-- The addresses of the two switches: 127.0.0.0/8 and the private ranges.
abbrev pub Refused : (address : ℕ) → (allow_private allow_loopback : Bool) → Type 0
Refused x allow_private allow_loopback =
    InReserved x
    ⊎ (allow_loopback ≡ false × InCidr x 127 0 0 8)
    ⊎ (allow_private ≡ false × InPrivate x)

loopback_range :
    (a b c d : ℕ)
    → a < 256
    → b < 256
    → c < 256
    → d < 256
    → (a ≡ 127) ↔ InCidr (ipv4_value a b c d) 127 0 0 8
loopback_range a b c d ha hb hc hd = (λ h. ground arith, λ h. ground arith)

is_reserved_ipv4-loopback :
    (a b c : ℕ) (l : Bool)
    → (is_reserved_ipv4 a b c l ≡ true)
      ↔ (is_reserved_ipv4 a b c true ≡ true ⊎ (l ≡ false × a ≡ 127))
is_reserved_ipv4-loopback a b c l = (λ h. ground arith, λ h. ground arith)

octet : (n : ℕ) → n < 256 → ltb 255 n ≡ false
octet n h = ground arith

either : (r p q : Bool) → ((r || (not p && q)) ≡ true) ↔ (r ≡ true ⊎ (p ≡ false × q ≡ true))
either r p q = (λ h. ground arith, λ h. ground arith)

is_blocked_ipv4-reserved :
    (a b c d : ℕ) (p l : Bool)
    → a < 256
    → b < 256
    → c < 256
    → d < 256
    → (is_blocked_ipv4 (a ∷ b ∷ c ∷ d ∷ []) p l ≡ true)
      ↔ (is_reserved_ipv4 a b c l ≡ true ⊎ (p ≡ false × is_private_ipv4 a b ≡ true))
unfolding is_blocked_ipv4
is_blocked_ipv4-reserved a b c d p l ha hb hc hd =
    rw (octet a ha, octet b hb, octet c hc, octet d hd)
      (either (is_reserved_ipv4 a b c l) p (is_private_ipv4 a b))

-- Four octets below 256 are refused exactly if the address that they spell lies in one of the
-- reserved CIDR ranges, in 127.0.0.0/8 without `allow_loopback`, or in one of the private
-- ranges without `allow_private`.
pub is_blocked_ipv4-Refused :
    (a b c d : ℕ) (p l : Bool)
    → a < 256
    → b < 256
    → c < 256
    → d < 256
    → (is_blocked_ipv4 (a ∷ b ∷ c ∷ d ∷ []) p l ≡ true) ↔ Refused (ipv4_value a b c d) p l
is_blocked_ipv4-Refused a b c d p l ha hb hc hd =
    let blocked = is_blocked_ipv4-reserved a b c d p l ha hb hc hd in
    let reserved = is_reserved_ipv4-loopback a b c l in
    let ranges = reserved_ranges a b c d ha hb hc hd in
    let loopback = loopback_range a b c d ha hb hc hd in
    let private = private_ranges a b c d ha hb hc hd in
    (
      λ h.
          ⊎_elim
            (λ r.
              ⊎_elim (λ e. inl (ranges.0 e)) (λ e. inr (inl (e.0, loopback.0 (e.1))))
                (reserved.0 r))
            (λ e. inr (inr (e.0, private.0 (e.1)))) (blocked.0 h),
      λ h. blocked.1 (
          ⊎_elim (λ r. inl (reserved.1 (inl (ranges.1 r))))
            (⊎_elim (λ e. inl (reserved.1 (inr (e.0, loopback.1 (e.1)))))
              (λ e. inr (e.0, private.1 (e.1))))
            h),
    )
