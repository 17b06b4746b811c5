-- ===== src/Network/Examples.antt =====
-- The theorems on network targets at concrete addresses, and tests.
use master_dns.Common.{
  ◌≡◌, ◌↔◌, ◌⊎◌, refl, true, false, [], ◌∷◌, err, arith, ℕ, ◌+◌, ◌*◌, ◌^◌, ◌/◌, ◌%◌, All,
}
use master_dns.Network.{
  is_blocked_ipv4, is_blocked_ipv6, has_ipv6_prefix, is_special_ipv6, assert_allowed_network_target,
  NetworkTargetPolicy, ipv4, target_not_allowed, octets_of,
}
use master_dns.Common.{List, ok}
use master_dns.Common.Text.{utf16}
use master_dns.Network.{link_local, ipv6}
use master_dns.Network.Parser.{normalize_ipv6, assert_allowed_text}
use master_dns.Network.Spelling.{IsNumber, shortened, assert_allowed_text-spelled}
use master_dns.Network.Ranges.{is_blocked_ipv4-Refused, Refused, ipv4_value}
use master_dns.Network.Embedding.{is_blocked_ipv6-accepted, IsGlobalUnicast}

abbrev strict : NetworkTargetPolicy
strict = record { allow_private = false; allow_loopback = false }

abbrev private : NetworkTargetPolicy
private = record { allow_private = true; allow_loopback = false }

-- 2606:4700:4700::1111
abbrev public_v6 : ℕ
public_v6 = 0x260647004700 * 2 ^ 80 + 0x1111

home_is_refused :
    assert_allowed_network_target (ipv4 (192 ∷ 168 ∷ 1 ∷ 7 ∷ [])) strict ≡ err target_not_allowed
unfolding assert_allowed_network_target is_blocked_ipv4
home_is_refused = refl

public_v6_is_accepted : is_blocked_ipv6 public_v6 false false ≡ false
unfolding is_blocked_ipv6 is_special_ipv6 has_ipv6_prefix
public_v6_is_accepted = refl

is_blocked_ipv4-Refused_example :
    (is_blocked_ipv4 (100 ∷ 127 ∷ 3 ∷ 4 ∷ []) false true ≡ true)
    ↔ Refused (ipv4_value 100 127 3 4) false true
is_blocked_ipv4-Refused_example =
    is_blocked_ipv4-Refused 100 127 3 4 false true (omega arith) (omega arith) (omega arith)
      (omega arith)

is_blocked_ipv6-accepted_example :
    (public_v6 ≡ 1 × false ≡ true)
    ⊎ (public_v6 / 2 ^ 32 ≡ 0xffff
        × is_blocked_ipv4 (octets_of (public_v6 % 2 ^ 32)) false false ≡ false)
    ⊎ IsGlobalUnicast public_v6
is_blocked_ipv6-accepted_example = is_blocked_ipv6-accepted public_v6 false public_v6_is_accepted

abbrev cloudflare_heads : List (List ℕ)
cloudflare_heads = (2 ∷ 6 ∷ 0 ∷ 6 ∷ []) ∷ (4 ∷ 7 ∷ 0 ∷ 0 ∷ []) ∷ (4 ∷ 7 ∷ 0 ∷ 0 ∷ []) ∷ []

abbrev cloudflare_tails : List (List ℕ)
cloudflare_tails = (1 ∷ 1 ∷ 1 ∷ 1 ∷ []) ∷ []

cloudflare_heads-AreNumbers : All IsNumber cloudflare_heads
cloudflare_heads-AreNumbers = (
  ((λ e. cc), omega arith, (omega arith, (omega arith, (omega arith, (omega arith, tt))))),
  (
    ((λ e. cc), omega arith, (omega arith, (omega arith, (omega arith, (omega arith, tt))))),
    (((λ e. cc), omega arith, (omega arith, (omega arith, (omega arith, (omega arith, tt))))), tt),
  ),
)

cloudflare_tails-AreNumbers : All IsNumber cloudflare_tails
cloudflare_tails-AreNumbers =
    (((λ e. cc), omega arith, (omega arith, (omega arith, (omega arith, (omega arith, tt))))), tt)

assert_allowed_text-spelled_example :
    (normalize_ipv6 (utf16 "2606:4700:4700::1111") ≡ ok public_v6)
    × (assert_allowed_text (λ text. 6) (utf16 "2606:4700:4700::1111") strict
        ≡ assert_allowed_network_target (ipv6 public_v6) strict)
assert_allowed_text-spelled_example =
    assert_allowed_text-spelled (λ text. 6) strict (utf16 "2606:4700:4700::1111") public_v6
      (shortened cloudflare_heads 4 cloudflare_tails cloudflare_heads-AreNumbers
        cloudflare_tails-AreNumbers refl)
      refl

reads_link_local : normalize_ipv6 (utf16 "FE80::%eth0") ≡ ok link_local
unfolding normalize_ipv6
reads_link_local = refl

reads_mapped : normalize_ipv6 (utf16 "::ffff:127.0.0.1") ≡ ok 0xffff7f000001
unfolding normalize_ipv6
reads_mapped = refl

refuses_nine_groups : normalize_ipv6 (utf16 "1:2:3:4:5:6:7:8:9") ≡ err target_not_allowed
unfolding normalize_ipv6
refuses_nine_groups = refl
