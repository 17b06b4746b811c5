-- ===== src/Network/Parser.antt =====
-- `normalizeIpv6`, and how `assertAllowedNetworkTarget` reads a text. A text is its UTF-16 units.
use master_dns.Common.{
  ℕ, ◌+◌, ◌-◌, ◌*◌, ◌&&◌, Option, none, some, List, [], ◌∷◌, ◌++◌, map, any, length, replicate, leb,
  ◌==◌, if◌then◌else◌, Result, ok, err, ◌>>=◌,
}
use master_dns.Network.{
  Address, ipv4, ipv6, not_ip, TargetError, target_not_allowed, NetworkTargetPolicy,
  assert_allowed_network_target,
}

-- `text.split(separator)` on one unit.
abbrev pub push : ℕ → List (List ℕ) → List (List ℕ)
push unit [] = (unit ∷ []) ∷ []
push unit (part ∷ parts) = (unit ∷ part) ∷ parts

abbrev pub split_on : ℕ → List ℕ → List (List ℕ)
split_on separator [] = [] ∷ []
split_on separator (u ∷ us) =
    let rest = split_on separator us in if u == separator then [] ∷ rest else push u rest

-- What precedes the first "::", and what follows it.
abbrev pub split_double : List ℕ → List ℕ × Option (List ℕ)
split_double [] = ([], none)
split_double (u ∷ []) = (u ∷ [], none)
split_double (u ∷ v ∷ us) =
    let rest = split_double (v ∷ us) in
    if u == 58 && v == 58 then ([], some us) else (u ∷ rest.0, rest.1)

abbrev pub before_zone : List ℕ → List ℕ
before_zone [] = []
before_zone (u ∷ us) = let rest = before_zone us in if u == 37 then [] else u ∷ rest

-- `toLowerCase` on the letters of ASCII, the only ones that are left.
abbrev pub lower : ℕ → ℕ
lower u = if leb 65 u && leb u 90 then u + 32 else u

abbrev pub hex_digit : ℕ → ℕ
hex_digit u = if leb 97 u then u - 87 else u - 48

abbrev pub hex_from : ℕ → List ℕ → ℕ
hex_from value [] = value
hex_from value (u ∷ us) = hex_from (value * 16 + hex_digit u) us

abbrev pub hex_value : List ℕ → ℕ
hex_value part = hex_from 0 part

abbrev pub decimal_from : ℕ → List ℕ → ℕ
decimal_from value [] = value
decimal_from value (u ∷ us) = decimal_from (value * 10 + (u - 48)) us

abbrev pub decimals : List ℕ → List ℕ
decimals text = map (decimal_from 0) (split_on 46 text)

abbrev pub byte_pairs : List ℕ → List ℕ
byte_pairs [] = 0 ∷ 0 ∷ []
byte_pairs (a ∷ []) = (a * 256) ∷ 0 ∷ []
byte_pairs (a ∷ b ∷ []) = (a * 256 + b) ∷ 0 ∷ []
byte_pairs (a ∷ b ∷ c ∷ []) = (a * 256 + b) ∷ (c * 256) ∷ []
byte_pairs (a ∷ b ∷ c ∷ d ∷ _) = (a * 256 + b) ∷ (c * 256 + d) ∷ []

-- A part as the numbers that its texts denote: an IPv4 address is two.
abbrev pub expand_ipv4 : List ℕ → List ℕ
expand_ipv4 part =
    if any (λ u. u == 46) part then byte_pairs (decimals part) else hex_value part ∷ []

abbrev pub parts_of : List ℕ → List (List ℕ)
parts_of [] = []
parts_of (u ∷ us) = split_on 58 (u ∷ us)

abbrev pub expand_all : List (List ℕ) → List ℕ
expand_all [] = []
expand_all (part ∷ parts) = expand_ipv4 part ++ expand_all parts

-- `(value << 16n) | part`, for parts below 2 ^ 16.
abbrev pub address_from : ℕ → List ℕ → ℕ
address_from value [] = value
address_from value (part ∷ parts) = address_from (value * 65536 + part) parts

abbrev pub of_parts : List ℕ → Result TargetError ℕ
of_parts parts = if length parts == 8 then ok (address_from 0 parts) else err target_not_allowed

abbrev pub fill : (head tail : List ℕ) → List ℕ
fill head tail = head ++ (replicate (8 - (length head + length tail)) 0 ++ tail)

abbrev pub assemble : List ℕ × Option (List ℕ) → Result TargetError ℕ
assemble (head, none) = of_parts (expand_all (parts_of head))
assemble (head, some tail) =
    of_parts (fill (expand_all (parts_of head)) (expand_all (parts_of (split_double tail).0)))

unfoldable pub normalize_ipv6 : List ℕ → Result TargetError ℕ
normalize_ipv6 address = assemble (split_double (map lower (before_zone address)))

-- `isIP` of the platform.
module _ (is_ip : List ℕ → ℕ) where
  abbrev pub read_address : List ℕ → Result TargetError Address
  read_address address =
      if is_ip address == 4
      then ok (ipv4 (decimals address))
      else if is_ip address == 6
      then (normalize_ipv6 address >>= λ value. ok (ipv6 value))
      else ok not_ip

  unfoldable pub assert_allowed_text : List ℕ → NetworkTargetPolicy → Result TargetError (Unit {0})
  assert_allowed_text address policy =
      read_address address >>= λ target. assert_allowed_network_target target policy
