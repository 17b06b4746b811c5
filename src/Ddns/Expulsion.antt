-- ===== src/Ddns/Expulsion.antt =====
-- How long a runtime token stays accepted: until a revocation or the second exchange after it.
use master_dns.Common.{
  ℕ, ◌≡◌, refl, subst, Option, none, some, String, List, Bool, false, All, not, Result, err, ok,
  ◌>>◌, ◌>>=◌, throw_if, inl, inr, Bool-cases, arith, first_returns, ok-injective,
}
use master_dns.Common.Text.{str_eq}
use master_dns.Ddns.Tokens.{
  RuntimeTokenState, has_hash, runtime_token_matches, current_runtime_token_matches,
  rotate_runtime_token,
}
use master_dns.Ddns.Agent.{
  Agent, AddressMode, put_install_token, disable, conflict, bad_request, exchanged, revoke,
  unauthorized,
}
use master_dns.Ddns.Requests.{
  Request, create, exchange_install, beat, owner_revoke, self_revoke, serve, serve_all, seen_alive,
  heartbeat, revoke_runtime, locked_row, with_locked, recheck, Row, Heartbeat, drop_lapsed,
  has_lapsed, authenticate_runtime_token,
}
use master_dns.Ddns.Writes.{exchange-writes, written, serve_all-keeps}

-- The token that a request would issue is another than `t`.
abbrev pub IsOther : String → Request → Type 0
IsOther t (exchange_install found mode install_token_hash runtime_token_hash now) =
    str_eq runtime_token_hash t ≡ false
IsOther t r = Unit {0}

-- `t` is neither the current token nor the previous one.
abbrev pub IsExpelled : String → Option Agent → Type 0
IsExpelled t none = Unit {0}
IsExpelled t (some a) =
    (has_hash a.tokens.runtime_token_hash t ≡ false)
    × (has_hash a.tokens.previous_runtime_token_hash t ≡ false)

abbrev pub IsReplaced : String → Option Agent → Type 0
IsReplaced t none = Unit {0}
IsReplaced t (some a) = has_hash a.tokens.runtime_token_hash t ≡ false

-- No request that carries `t` succeeds.
abbrev pub Refuses : Option Agent → String → Type 0
Refuses row t =
    (seen : Option Row) (mode : AddressMode) (input : Heartbeat) (now later : ℕ)
    (written : Option Agent)
    → ¬ (serve row (beat (some t) seen mode input now later) ≡ ok written)
      × ¬ (serve row (self_revoke (some t) seen mode now) ≡ ok written)

drop_lapsed_lem :
    (t : String) (s : RuntimeTokenState) (now : ℕ)
    → has_hash s.runtime_token_hash t ≡ false
    → has_hash s.previous_runtime_token_hash t ≡ false
    → (has_hash (drop_lapsed s now).runtime_token_hash t ≡ false)
      × (has_hash (drop_lapsed s now).previous_runtime_token_hash t ≡ false)
drop_lapsed_lem t s now p q =
    elim (Bool-cases (has_lapsed s.previous_runtime_token_expires_at now)) [
      | inl e ↦ rw e (p, refl)
      | inr e ↦ rw e (p, q)
    ]

written-IsExpelled :
    (t : String) (row : Option Agent) (r : Request)
    → IsOther t r
    → IsExpelled t row
    → IsExpelled t (written row r)
unfolding put_install_token exchanged rotate_runtime_token seen_alive disable
written-IsExpelled t none (create owned locked i h s now) o p = (refl, refl)
written-IsExpelled t (some a) (create owned locked i h s now) o p = p
written-IsExpelled t none (exchange_install f m i h now) o p = tt
written-IsExpelled t (some a) (exchange_install f m i h now) o (p, q) = (o, p)
written-IsExpelled t none (beat token seen mode input now later) o p = tt
written-IsExpelled t (some a) (beat token seen mode input now later) o (p, q) =
    drop_lapsed_lem t a.tokens now p q
written-IsExpelled t none (owner_revoke owned now) o p = tt
written-IsExpelled t (some a) (owner_revoke owned now) o p = (refl, refl)
written-IsExpelled t none (self_revoke token seen mode now) o p = tt
written-IsExpelled t (some a) (self_revoke token seen mode now) o p = (refl, refl)

written-IsReplaced :
    (t : String) (row : Option Agent) (r : Request)
    → IsOther t r
    → IsReplaced t row
    → IsReplaced t (written row r)
unfolding put_install_token exchanged rotate_runtime_token seen_alive disable
written-IsReplaced t none (create owned locked i h s now) o p = refl
written-IsReplaced t (some a) (create owned locked i h s now) o p = p
written-IsReplaced t none (exchange_install f m i h now) o p = tt
written-IsReplaced t (some a) (exchange_install f m i h now) o p = o
written-IsReplaced t none (beat token seen mode input now later) o p = tt
written-IsReplaced t (some a) (beat token seen mode input now later) o p =
    elim (Bool-cases (has_lapsed a.tokens.previous_runtime_token_expires_at now)) [
      | inl e ↦ rw e p
      | inr e ↦ rw e p
    ]
written-IsReplaced t none (owner_revoke owned now) o p = tt
written-IsReplaced t (some a) (owner_revoke owned now) o p = refl
written-IsReplaced t none (self_revoke token seen mode now) o p = tt
written-IsReplaced t (some a) (self_revoke token seen mode now) o p = refl

recheck-false : (mode : AddressMode) (a : Agent) → recheck mode a false ≡ err unauthorized
recheck-false mode a = ground arith

module _ {E : Type 0} {V : Type 0} {w : V} (first : Result E (Unit {0})) where
  never_ok : (second : Result E V) {e : E} → second ≡ err e → ¬ ((first >> second) ≡ ok w)
  never_ok second fails returned = let (u, e, f) = first_returns first (λ _. second) returned in cc

  never_ok_then :
      (second : Result E V) (third : V → Result E V) {e : E}
      → second ≡ err e
      → ¬ ((first >> (second >>= third)) ≡ ok w)
  never_ok_then second third fails returned =
      let (u, e, f) = first_returns first (λ _. second >>= third) returned in
      let (v, g, h) = first_returns second third f in cc

with_locked-refuses :
    (row : Option Agent) (t : String) (mode : AddressMode)
    (matches : RuntimeTokenState → String → Bool) (write : Agent → Agent)
    → ((a : Agent) → row ≡ some a → matches a.tokens t ≡ false)
    → with_locked (some t) (locked_row mode row) matches write ≡ err unauthorized
with_locked-refuses none t mode matches write fails = refl
with_locked-refuses (some a) t mode matches write fails =
    rw (fails a refl, recheck-false mode a) refl

no_match :
    (t : String) (a : Agent) (later : ℕ)
    → IsExpelled t (some a)
    → runtime_token_matches a.tokens t later ≡ false
unfolding runtime_token_matches
no_match t a later (p, q) = rw (p, q) refl

Refuses-IsExpelled : (t : String) (row : Option Agent) → IsExpelled t row → Refuses row t
unfolding serve heartbeat revoke_runtime current_runtime_token_matches
Refuses-IsExpelled t row p seen mode input now later w =
    let matches : RuntimeTokenState → String → Bool = λ s h. runtime_token_matches s h later in
    let write : Agent → Agent = λ a. seen_alive a input now in
    let disabling : Agent → Agent = λ a. disable a now in
    (
      never_ok_then
          (authenticate_runtime_token (some t) seen now
            >> throw_if (not input.has_report) bad_request)
          (with_locked (some t) (locked_row mode row) matches write)
          (λ x. throw_if input.has_conflict conflict >> ok x)
          (with_locked-refuses row t mode matches write
            (λ a e. no_match t a later (subst (IsExpelled t) e p))),
      never_ok (authenticate_runtime_token (some t) seen now)
          (with_locked (some t) (locked_row mode row) current_runtime_token_matches disabling)
          (with_locked-refuses row t mode current_runtime_token_matches disabling
            (λ a e. (subst (IsExpelled t) e p).0)),
    )

Refuses-kept :
    (t : String) (row : Option Agent) (rs : List Request)
    → All (IsOther t) rs
    → IsExpelled t row
    → Refuses (serve_all row rs) t
Refuses-kept t row rs others p =
    Refuses-IsExpelled t (serve_all row rs)
      (serve_all-keeps (IsExpelled t) (IsOther t) (written-IsExpelled t) row rs others p)

revoke-IsExpelled :
    (t : String) (row : Option Agent) (owned : Option AddressMode) (now : ℕ) (row' : Option Agent)
    → serve row (owner_revoke owned now) ≡ ok row'
    → IsExpelled t row'
unfolding serve revoke disable
revoke-IsExpelled t row none now row' e = cc
revoke-IsExpelled t none (some owned) now row' e = cc
revoke-IsExpelled t (some a) (some owned) now row' e =
    subst (IsExpelled t) (ok-injective _ _ e) (refl, refl)

-- After the owner has revoked an agent, no runtime token is accepted, for a heartbeat or for a
-- revocation, until an exchange issues that token again. This holds across every sequence of
-- other requests, those for new install tokens included, and whatever the requests saw before
-- they took the lock.
pub revoke-IsFinal :
    (t : String) (row : Option Agent) (owned : Option AddressMode) (now : ℕ) (row' : Option Agent)
    (rs : List Request)
    → serve row (owner_revoke owned now) ≡ ok row'
    → All (IsOther t) rs
    → Refuses (serve_all row' rs) t
revoke-IsFinal t row owned now row' rs e others =
    Refuses-kept t row' rs others (revoke-IsExpelled t row owned now row' e)

-- Two exchanges for other tokens expel a runtime token, whatever is requested between and after
-- them, until an exchange issues that token again.
pub exchange-expels :
    (t : String) (row : Option Agent) (rs rs' : List Request) (found found' : Bool)
    (mode mode' : AddressMode) (i i' h h' : String) (now now' : ℕ) (row1 row2 : Option Agent)
    → str_eq h t ≡ false
    → str_eq h' t ≡ false
    → serve row (exchange_install found mode i h now) ≡ ok row1
    → All (IsOther t) rs
    → serve (serve_all row1 rs) (exchange_install found' mode' i' h' now') ≡ ok row2
    → All (IsOther t) rs'
    → Refuses (serve_all row2 rs') t
unfolding exchanged rotate_runtime_token
exchange-expels t row rs rs' found found' mode mode' i i' h h' now now' row1 row2 other other' e
      others e' others' =
    let (a, p, q) = exchange-writes found mode row i h now row1 e in
    let (b, p', q') = exchange-writes found' mode' (serve_all row1 rs) i' h' now' row2 e' in
    let replaced : IsReplaced t row1 = rw q other in
    let still : IsReplaced t (serve_all row1 rs) =
      serve_all-keeps (IsReplaced t) (IsOther t) (written-IsReplaced t) row1 rs others replaced in
    Refuses-kept t row2 rs' others' (rw q' (other', subst (IsReplaced t) p' still))
