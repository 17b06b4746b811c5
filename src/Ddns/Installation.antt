-- ===== src/Ddns/Installation.antt =====
-- An install token is exchanged once, and a disabled agent stays out until a new one is made.
use master_dns.Common.{ℕ, ◌≡◌, refl, Option, none, some, String, List, Bool, false, All, ok, arith}
use master_dns.Common.Text.{str_eq}
use master_dns.Ddns.Tokens.{has_hash}
use master_dns.Ddns.Agent.{Agent, AddressMode, put_install_token, disable, exchanged, exchange}
use master_dns.Ddns.Requests.{
  Request, create, exchange_install, beat, owner_revoke, self_revoke, serve, serve_all, seen_alive,
}
use master_dns.Ddns.Writes.{exchange-writes, written, serve_all-keeps}

-- The request does not make `h` the install token.
abbrev pub IsNoOffer : String → Request → Type 0
IsNoOffer h (create owned locked has_installer token_hash expires_in_seconds now) =
    str_eq token_hash h ≡ false
IsNoOffer h r = Unit {0}

abbrev pub IsSpent : String → Option Agent → Type 0
IsSpent h none = Unit {0}
IsSpent h (some a) = has_hash a.install_token_hash h ≡ false

written-IsSpent :
    (h : String) (row : Option Agent) (r : Request)
    → IsNoOffer h r
    → IsSpent h row
    → IsSpent h (written row r)
unfolding put_install_token exchanged seen_alive disable
written-IsSpent h none (create owned locked i t s now) o p = o
written-IsSpent h (some a) (create owned locked i t s now) o p = o
written-IsSpent h none (exchange_install f m i t now) o p = tt
written-IsSpent h (some a) (exchange_install f m i t now) o p = refl
written-IsSpent h none (beat token seen mode input now later) o p = tt
written-IsSpent h (some a) (beat token seen mode input now later) o p = p
written-IsSpent h none (owner_revoke owned now) o p = tt
written-IsSpent h (some a) (owner_revoke owned now) o p = refl
written-IsSpent h none (self_revoke token seen mode now) o p = tt
written-IsSpent h (some a) (self_revoke token seen mode now) o p = refl

spent_lem :
    (found : Bool) (mode : AddressMode) (row : Option Agent) (i h : String) (now : ℕ)
    (w : Option Agent)
    → IsSpent i row
    → ¬ (serve row (exchange_install found mode i h now) ≡ ok w)
unfolding serve exchange
spent_lem found mode none i h now w p e = cc
spent_lem found mode (some a) i h now w p e = ground arith

-- Once an install token has been exchanged, no later exchange of it succeeds, whatever is
-- requested in between, unless the token is offered again.
pub exchange-once :
    (row row' w : Option Agent) (rs : List Request) (found found' : Bool) (mode mode' : AddressMode)
    (i h h' : String) (now now' : ℕ)
    → serve row (exchange_install found mode i h now) ≡ ok row'
    → All (IsNoOffer i) rs
    → ¬ (serve (serve_all row' rs) (exchange_install found' mode' i h' now') ≡ ok w)
unfolding exchanged
exchange-once row row' w rs found found' mode mode' i h h' now now' e others =
    let (a, p, q) = exchange-writes found mode row i h now row' e in
    let spent : IsSpent i row' = rw q refl in
    spent_lem found' mode' (serve_all row' rs) i h' now' w
      (serve_all-keeps (IsSpent i) (IsNoOffer i) (written-IsSpent i) row' rs others spent)
