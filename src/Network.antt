-- ===== src/Network.antt =====
-- packages/checkers/src/network-policy.ts: the addresses that a health check may connect to.
pub mod Ranges
pub mod Relaxing
pub mod Embedding
pub mod Parser
pub mod Numerals
pub mod Spelling
pub mod Splitting
mod Examples
use master_dns.Common.{
  ℕ, ◌-◌, ◌*◌, ◌/◌, ◌%◌, ◌^◌, Bool, true, not, ◌&&◌, ◌||◌, List, [], ◌∷◌, ◌==◌, leb, ltb,
  if◌then◌else◌, Result, throw_if, err,
}

-- A private range, or a reserved one, of four octets in 0 to 255.
abbrev pub is_private_ipv4 : ℕ → ℕ → Bool
is_private_ipv4 a b =
    a == 10
    || (a == 100 && leb 64 b && leb b 127)
    || (a == 172 && leb 16 b && leb b 31)
    || (a == 192 && b == 168)

abbrev pub is_reserved_ipv4 : ℕ → ℕ → ℕ → Bool → Bool
is_reserved_ipv4 a b c allow_loopback =
    a == 0
    || (a == 127 && not allow_loopback)
    || leb 224 a
    || (a == 169 && b == 254)
    || (a == 192 && b == 0 && c == 0)
    || (a == 192 && b == 0 && c == 2)
    || (a == 198 && (b == 18 || b == 19))
    || (a == 198 && b == 51 && c == 100)
    || (a == 203 && b == 0 && c == 113)

unfoldable pub is_blocked_ipv4 : List ℕ → (allow_private allow_loopback : Bool) → Bool
is_blocked_ipv4 (a ∷ b ∷ c ∷ d ∷ []) allow_private allow_loopback =
    ltb 255 a
    || ltb 255 b
    || ltb 255 c
    || ltb 255 d
    || is_reserved_ipv4 a b c allow_loopback
    || (not allow_private && is_private_ipv4 a b)
is_blocked_ipv4 octets allow_private allow_loopback = true

-- `value >> shift === prefix >> shift`, where `shift` is 128 less the prefix's bits.
unfoldable pub has_ipv6_prefix : (value prefix bits : ℕ) → Bool
has_ipv6_prefix value prefix bits = (value / 2 ^ (128 - bits)) == (prefix / 2 ^ (128 - bits))

-- `IPV6_PREFIX`, with each text as the number that it denotes.
abbrev pub multicast : ℕ  -- ff00::
multicast = 0xff00 * 2 ^ 112

abbrev pub link_local : ℕ  -- fe80::
link_local = 0xfe80 * 2 ^ 112

abbrev pub site_local : ℕ  -- fec0::
site_local = 0xfec0 * 2 ^ 112

abbrev pub unique_local : ℕ  -- fc00::
unique_local = 0xfc00 * 2 ^ 112

abbrev pub global_unicast : ℕ  -- 2000::
global_unicast = 0x2000 * 2 ^ 112

abbrev pub special_2001 : ℕ  -- 2001::
special_2001 = 0x2001 * 2 ^ 112

abbrev pub documentation : ℕ  -- 2001:db8::
documentation = 0x20010db8 * 2 ^ 96

abbrev pub six_to_four : ℕ  -- 2002::
six_to_four = 0x2002 * 2 ^ 112

abbrev pub documentation_v2 : ℕ  -- 3fff::
documentation_v2 = 0x3fff * 2 ^ 112

-- The last 32 bits as four octets.
abbrev pub octets_of : ℕ → List ℕ
octets_of ipv4 =
    (ipv4 / 2 ^ 24 % 256) ∷ (ipv4 / 2 ^ 16 % 256) ∷ (ipv4 / 2 ^ 8 % 256) ∷ (ipv4 % 256) ∷ []

abbrev pub is_mapped : ℕ → Bool
is_mapped value = (value / 2 ^ 32) == 0xffff

-- What is refused within, and outside, the global unicast range.
unfoldable pub is_special_ipv6 : ℕ → Bool
is_special_ipv6 value =
    not (has_ipv6_prefix value global_unicast 3)
    || has_ipv6_prefix value special_2001 23
    || has_ipv6_prefix value documentation 32
    || has_ipv6_prefix value six_to_four 16
    || has_ipv6_prefix value documentation_v2 20

unfoldable pub is_blocked_ipv6 : ℕ → (allow_private allow_loopback : Bool) → Bool
is_blocked_ipv6 value allow_private allow_loopback =
    if value == 0
    then true
    else if value == 1
    then not allow_loopback
    else if is_mapped value
    then is_blocked_ipv4 (octets_of (value % 2 ^ 32)) allow_private allow_loopback
    else if has_ipv6_prefix value multicast 8
    then true
    else if has_ipv6_prefix value link_local 10 || has_ipv6_prefix value site_local 10
    then true
    else if has_ipv6_prefix value unique_local 7
    then not allow_private
    else is_special_ipv6 value

-- An address as `isIP` and the parsers of its text leave it.
pub data Address : Type 0 where
  ipv4 : List ℕ → Address
  ipv6 : ℕ → Address
  not_ip : Address

pub data TargetError : Type 0 where
  target_not_allowed invalid_target : TargetError

-- `policy.allowPrivate` and `policy.allowLoopback`, each false where it is absent.
pub record NetworkTargetPolicy : Type 0 where
  pub allow_private : Bool
  pub allow_loopback : Bool

unfoldable pub assert_allowed_network_target :
    Address → NetworkTargetPolicy → Result TargetError (Unit {0})
assert_allowed_network_target (ipv4 octets) p =
    throw_if (is_blocked_ipv4 octets p.allow_private p.allow_loopback) target_not_allowed
assert_allowed_network_target (ipv6 value) p =
    throw_if (is_blocked_ipv6 value p.allow_private p.allow_loopback) target_not_allowed
assert_allowed_network_target not_ip p = err invalid_target
