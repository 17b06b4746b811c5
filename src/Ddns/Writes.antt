-- ===== src/Ddns/Writes.antt =====
-- What a request can do to the agent's row: nothing, or one write.
use master_dns.Common.{
  ℕ, ◌+◌, ◌*◌, ◌≡◌, refl, Option, none, some, String, List, [], ◌∷◌, Bool, All, not, Result, err,
  ok, ◌>>◌, ◌>>=◌, throw_if, first_returns,
}
use master_dns.Ddns.Tokens.{RuntimeTokenState, runtime_token_matches, current_runtime_token_matches}
use master_dns.Ddns.Agent.{
  DdnsError, Agent, put_install_token, disable, exchanged, create_install_token, exchange, revoke,
  AddressMode, ddns_endpoint, bad_request, unauthorized, conflict, exchanges,
}
use master_dns.Ddns.Requests.{
  Request, create, exchange_install, beat, owner_revoke, self_revoke, serve, serve_all, committed,
  seen_alive, heartbeat, revoke_runtime, locked_row, with_locked, recheck, Row, Heartbeat,
  authenticate_runtime_token,
}

abbrev pub map_row : (Agent → Agent) → Option Agent → Option Agent
map_row write none = none
map_row write (some a) = some (write a)

abbrev pub written : Option Agent → Request → Option Agent
written row (create owned locked has_installer token_hash expires_in_seconds now) =
    some (put_install_token row token_hash (now + expires_in_seconds * 1000))
written row (exchange_install found mode install_token_hash runtime_token_hash now) =
    map_row (λ a. exchanged a runtime_token_hash now) row
written row (beat token seen mode input now later) = map_row (λ a. seen_alive a input now) row
written row (owner_revoke owned now) = map_row (λ a. disable a now) row
written row (self_revoke token seen mode now) = map_row (λ a. disable a now) row

module _ {ℓ} (P : Option Agent → Type ℓ) (row : Option Agent) where
  committed-after :
      (first : Result DdnsError (Unit {0})) (second : Result DdnsError (Option Agent))
      → P row
      → P (committed row second)
      → P (committed row (first >> second))
  committed-after (err e) second p q = p
  committed-after (ok u) second p q = q

  committed-before :
      (first : Result DdnsError (Option Agent)) (second : Result DdnsError (Unit {0}))
      → P row
      → P (committed row first)
      → P (committed row (first >>= λ w. second >> ok w))
  committed-before (err e) second p q = p
  committed-before (ok w) (err e) p q = p
  committed-before (ok w) (ok u) p q = q

module _ {ℓ} (P : Option Agent → Type ℓ) where
  with_locked-keeps :
      (token : Option String) (mode : AddressMode) (matches : RuntimeTokenState → String → Bool)
      (write : Agent → Agent) (row : Option Agent)
      → P row
      → P (map_row write row)
      → P (committed row (with_locked token (locked_row mode row) matches write))
  with_locked-keeps none mode matches write row p q = p
  with_locked-keeps (some token_hash) mode matches write none p q = p
  with_locked-keeps (some token_hash) mode matches write (some a) p q =
      committed-after P (some a) (recheck mode a (matches a.tokens token_hash))
        (ok (some (write a))) p q

  heartbeat-keeps :
      (row : Option Agent) (token : Option String) (seen : Option Row) (mode : AddressMode)
      (input : Heartbeat) (now later : ℕ)
      → P row
      → P (written row (beat token seen mode input now later))
      → P (committed row (heartbeat token seen (locked_row mode row) input now later))
  unfolding heartbeat
  heartbeat-keeps row token seen mode input now later p q =
      let matches : RuntimeTokenState → String → Bool = λ s h. runtime_token_matches s h later in
      let write : Agent → Agent = λ a. seen_alive a input now in
      let locked = with_locked token (locked_row mode row) matches write in
      let refuse = throw_if input.has_conflict conflict in
      committed-after P row
        (authenticate_runtime_token token seen now >> throw_if (not input.has_report) bad_request)
        (locked >>= λ w. refuse >> ok w) p
        (committed-before P row locked refuse p
          (with_locked-keeps token mode matches write row p q))

  revoke_runtime-keeps :
      (row : Option Agent) (token : Option String) (seen : Option Row) (mode : AddressMode)
      (now : ℕ)
      → P row
      → P (written row (self_revoke token seen mode now))
      → P (committed row (revoke_runtime token seen (locked_row mode row) now))
  unfolding revoke_runtime
  revoke_runtime-keeps row token seen mode now p q =
      let write : Agent → Agent = λ a. disable a now in
      committed-after P row (authenticate_runtime_token token seen now)
        (with_locked token (locked_row mode row) current_runtime_token_matches write) p
        (with_locked-keeps token mode current_runtime_token_matches write row p q)

  -- What holds of the row before a request and of the row that it writes holds after it.
  pub serve-keeps :
      (row : Option Agent) (r : Request)
      → P row
      → P (written row r)
      → P (committed row (serve row r))
  unfolding serve create_install_token exchange revoke
  serve-keeps row (create owned locked has_installer token_hash s now) p q =
      committed-after P row
        (ddns_endpoint owned >> throw_if (not has_installer) bad_request >> ddns_endpoint locked)
        (ok (some (put_install_token row token_hash (now + s * 1000)))) p q
  serve-keeps none (exchange_install found mode h t now) p q = p
  serve-keeps (some a) (exchange_install found mode h t now) p q =
      committed-after P (some a)
        (throw_if (not found) unauthorized >> throw_if (not (exchanges mode a h now)) unauthorized)
        (ok (some (exchanged a t now))) p q
  serve-keeps row (beat token seen mode input now later) p q =
      heartbeat-keeps row token seen mode input now later p q
  serve-keeps none (owner_revoke none now) p q = p
  serve-keeps none (owner_revoke (some owned) now) p q = p
  serve-keeps (some a) (owner_revoke none now) p q = p
  serve-keeps (some a) (owner_revoke (some owned) now) p q = q
  serve-keeps row (self_revoke token seen mode now) p q =
      revoke_runtime-keeps row token seen mode now p q

  -- A property that each of some requests keeps is kept by a sequence of them.
  pub serve_all-keeps :
      (Q : Request → Type 0)
      → ((row : Option Agent) (r : Request) → Q r → P row → P (written row r))
      → (row : Option Agent) (rs : List Request) → All Q rs
      → P row
      → P (serve_all row rs)
  unfolding serve_all
  serve_all-keeps Q keeps row [] qs p = p
  serve_all-keeps Q keeps row (r ∷ rs) (q, qs) p =
      serve_all-keeps Q keeps (committed row (serve row r)) rs qs
        (serve-keeps row r p (keeps row r q p))

pub exchange-writes :
    (found : Bool) (mode : AddressMode) (row : Option Agent) (i h : String) (now : ℕ)
    (row' : Option Agent)
    → serve row (exchange_install found mode i h now) ≡ ok row'
    → (a : Agent) × (row ≡ some a) × (row' ≡ some (exchanged a h now))
unfolding serve exchange
exchange-writes found mode none i h now row' e = cc
exchange-writes found mode (some a) i h now row' e =
    let (u, p, q) =
      first_returns
        (throw_if (not found) unauthorized >> throw_if (not (exchanges mode a i now)) unauthorized)
        (λ _. ok (some (exchanged a h now))) e in
    (a, refl, cc)
