-- ===== src/Network/Relaxing.antt =====
-- What the two switches of the policy do.
use master_dns.Common.{
  ℕ, ◌%◌, ◌^◌, ◌≡◌, Bool, true, false, List, [], ◌∷◌, ok, throw_if, arith, refl,
}
use master_dns.Network.{
  is_blocked_ipv4, is_blocked_ipv6, assert_allowed_network_target, NetworkTargetPolicy, Address,
  ipv4, ipv6, not_ip, octets_of,
}

-- `q` permits at least what `p` permits.
abbrev pub IsRelaxed : (p q : NetworkTargetPolicy) → Type 0
IsRelaxed p q =
    (p.allow_private ≡ true → q.allow_private ≡ true)
    × (p.allow_loopback ≡ true → q.allow_loopback ≡ true)

is_blocked_ipv4-relaxed :
    (octets : List ℕ) (p l q m : Bool)
    → (p ≡ true → q ≡ true)
    → (l ≡ true → m ≡ true)
    → is_blocked_ipv4 octets p l ≡ false
    → is_blocked_ipv4 octets q m ≡ false
unfolding is_blocked_ipv4
is_blocked_ipv4-relaxed [] p l q m hp hl h = h
is_blocked_ipv4-relaxed (a ∷ []) p l q m hp hl h = h
is_blocked_ipv4-relaxed (a ∷ b ∷ []) p l q m hp hl h = h
is_blocked_ipv4-relaxed (a ∷ b ∷ c ∷ []) p l q m hp hl h = h
is_blocked_ipv4-relaxed (a ∷ b ∷ c ∷ d ∷ []) p l q m hp hl h = ground arith
is_blocked_ipv4-relaxed (a ∷ b ∷ c ∷ d ∷ e ∷ r) p l q m hp hl h = h

is_blocked_ipv6-relaxed :
    (v : ℕ) (p l q m : Bool)
    → (p ≡ true → q ≡ true)
    → (l ≡ true → m ≡ true)
    → is_blocked_ipv6 v p l ≡ false
    → is_blocked_ipv6 v q m ≡ false
unfolding is_blocked_ipv6
is_blocked_ipv6-relaxed v p l q m hp hl h =
    let mapped = is_blocked_ipv4-relaxed (octets_of (v % 2 ^ 32)) p l q m hp hl in ground arith

throw_if-ok : {E : Type 0} (b : Bool) (e : E) → throw_if b e ≡ ok tt → b ≡ false
throw_if-ok b e h = ground arith

-- What a policy accepts stays accepted when either switch of the policy is turned on.
pub assert_allowed_network_target-relaxed :
    (x : Address) (p q : NetworkTargetPolicy)
    → IsRelaxed p q
    → assert_allowed_network_target x p ≡ ok tt
    → assert_allowed_network_target x q ≡ ok tt
unfolding assert_allowed_network_target
assert_allowed_network_target-relaxed (ipv4 octets) p q (hp, hl) h =
    rw
      (is_blocked_ipv4-relaxed octets p.allow_private p.allow_loopback q.allow_private
        q.allow_loopback hp hl (throw_if-ok _ _ h))
      refl
assert_allowed_network_target-relaxed (ipv6 v) p q (hp, hl) h =
    rw
      (is_blocked_ipv6-relaxed v p.allow_private p.allow_loopback q.allow_private q.allow_loopback
        hp hl (throw_if-ok _ _ h))
      refl
assert_allowed_network_target-relaxed not_ip p q r h = h
