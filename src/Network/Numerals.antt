-- ===== src/Network/Numerals.antt =====
-- Numerals by place value, and the letters of hexadecimal digits.
use master_dns.Common.{
  ◌≡◌, sym, ap, ◌∙◌, ℕ, suc, ◌+◌, ◌*◌, ◌^◌, ◌<◌, true, List, [], ◌∷◌, map, All, length, ltb,
  if◌then◌else◌, arith,
}
use native.Mathlib.Numerals.{unary_clauses}
use master_dns.Network.Parser.{hex_digit, hex_from, hex_value, address_from}
use master_dns.Network.Splitting.{is_hex}

-- The number that the digits denote in a base.
abbrev pub positional : (base : ℕ) → List ℕ → ℕ
positional base [] = 0
positional base (d ∷ ds) = d * base ^ length ds + positional base ds

-- `toString(16)` of a digit, as its UTF-16 unit.
abbrev pub hex_char : ℕ → ℕ
hex_char d = if ltb d 10 then 48 + d else 87 + d

abbrev pub spelling : List ℕ → List ℕ
spelling digits = map hex_char digits

pub is_hex-hex_char : (d : ℕ) → d < 16 → is_hex (hex_char d) ≡ true
is_hex-hex_char d h = ground arith

hex_digit-hex_char : (d : ℕ) → d < 16 → hex_digit (hex_char d) ≡ d
hex_digit-hex_char d h = ground arith

shift : (v b d p q : ℕ) → (v * b + d) * p + q ≡ v * (b * p) + (d * p + q)
shift v b d p q = omega arith

pow : (b n : ℕ) → b ^ suc n ≡ b * b ^ n
pow b n = simp unary_clauses (omega arith)

hex_from-positional :
    (v : ℕ) (ds : List ℕ)
    → All (λ d. d < 16) ds
    → hex_from v (spelling ds) ≡ v * 16 ^ length ds + positional 16 ds
hex_from-positional v [] h = omega arith
hex_from-positional v (d ∷ ds) (small, h) =
    ap (λ x. hex_from (v * 16 + x) (spelling ds)) (hex_digit-hex_char d small)
    ∙ hex_from-positional (v * 16 + d) ds h
    ∙ shift v 16 d (16 ^ length ds) (positional 16 ds)
    ∙ ap (λ p. v * p + (d * 16 ^ length ds + positional 16 ds)) (sym (pow 16 (length ds)))

address_from-positional :
    (v : ℕ) (parts : List ℕ)
    → address_from v parts ≡ v * 65536 ^ length parts + positional 65536 parts
address_from-positional v [] = omega arith
address_from-positional v (part ∷ parts) =
    address_from-positional (v * 65536 + part) parts
    ∙ shift v 65536 part (65536 ^ length parts) (positional 65536 parts)
    ∙ ap (λ p. v * p + (part * 65536 ^ length parts + positional 65536 parts))
        (sym (pow 65536 (length parts)))

pub hex_value-spelling :
    (ds : List ℕ) → All (λ d. d < 16) ds → hex_value (spelling ds) ≡ positional 16 ds
hex_value-spelling ds h = omega (arith, hex_from-positional 0 ds h)

pub address_from_zero : (parts : List ℕ) → address_from 0 parts ≡ positional 65536 parts
address_from_zero parts = omega (arith, address_from-positional 0 parts)
