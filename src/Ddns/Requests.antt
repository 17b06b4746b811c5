-- ===== src/Ddns/Requests.antt =====
-- ddns.service.ts: the requests that carry a runtime token, and sequences of requests.
use master_dns.Common.{
  ℕ, Bool, false, not, ◌&&◌, ◌||◌, Option, none, some, String, is_some, List, [], ◌∷◌, Result, err,
  ok, ◌>>◌, ◌>>=◌, throw_if, if◌then◌else◌, leb,
}
use master_dns.Ddns.Tokens.{
  RuntimeTokenState, has_hash, is_after, runtime_token_matches, current_runtime_token_matches,
}
use master_dns.Ddns.Agent.{
  DdnsError, unauthorized, bad_request, conflict, AddressMode, Agent, is_active, is_ddns,
  create_install_token, revoke, exchange, disable,
}

-- The query of `authenticateRuntimeToken`, on the row and the endpoint that it sees.
abbrev pub authenticates : AddressMode → Agent → String → (now : ℕ) → Bool
authenticates mode a token_hash now =
    (has_hash a.tokens.runtime_token_hash token_hash
      || (has_hash a.tokens.previous_runtime_token_hash token_hash
          && is_after a.tokens.previous_runtime_token_expires_at now))
    && is_ddns mode
    && is_active a.status
    && not (is_some a.revoked_at)

-- An agent's row with its endpoint's mode, as one read finds them.
pub record Row : Type 0 where
  pub agent : Agent
  pub mode : AddressMode

-- The token's hash, or none where `parseDdnsBearerToken` throws.
abbrev pub authenticate_runtime_token :
    Option String → Option Row → (now : ℕ) → Result DdnsError (Unit {0})
authenticate_runtime_token none seen now = err unauthorized
authenticate_runtime_token (some token_hash) none now = err unauthorized
authenticate_runtime_token (some token_hash) (some r) now =
    throw_if (not (authenticates r.mode r.agent token_hash now)) unauthorized

-- The check on the locked row; `matches` is the test on its tokens.
abbrev pub recheck : AddressMode → Agent → (matches : Bool) → Result DdnsError (Unit {0})
recheck mode a matches =
    throw_if (not (is_ddns mode && is_active a.status && not (is_some a.revoked_at) && matches))
      unauthorized

abbrev pub or_stored : Option String → Option String → Option String
or_stored none stored = stored
or_stored (some value) stored = some value

-- `previousRuntimeTokenExpiresAt && previousRuntimeTokenExpiresAt <= now`
abbrev pub has_lapsed : Option ℕ → ℕ → Bool
has_lapsed none now = false
has_lapsed (some time) now = leb time now

abbrev pub drop_lapsed : RuntimeTokenState → ℕ → RuntimeTokenState
drop_lapsed s now =
    if has_lapsed s.previous_runtime_token_expires_at now
    then record {
      runtime_token_hash = s.runtime_token_hash;
      previous_runtime_token_hash = none;
      previous_runtime_token_expires_at = none;
    }
    else s

pub record Heartbeat : Type 0 where
  pub hostname : Option String
  pub agent_version : Option String
  pub has_report : Bool  -- `reported.length > 0`
  pub has_conflict : Bool  -- the part on the reported addresses throws

unfoldable pub seen_alive : Agent → Heartbeat → (now : ℕ) → Agent
seen_alive a input now = record {
  status = a.status;
  revoked_at = a.revoked_at;
  install_token_hash = a.install_token_hash;
  install_token_expires_at = a.install_token_expires_at;
  install_token_used_at = a.install_token_used_at;
  tokens = drop_lapsed a.tokens now;
  hostname = or_stored input.hostname a.hostname;
  agent_version = or_stored input.agent_version a.agent_version;
  last_seen_at = some now;
}

-- The locked row, checked by `matches` on its tokens and the token's hash, and then rewritten.
abbrev pub with_locked :
    Option String
    → Option Row
    → (matches : RuntimeTokenState → String → Bool) → (Agent → Agent)
    → Result DdnsError (Option Agent)
with_locked none locked matches write = err unauthorized
with_locked (some token_hash) none matches write = err unauthorized
with_locked (some token_hash) (some r) matches write =
    recheck r.mode r.agent (matches r.agent.tokens token_hash) >> ok (some (write r.agent))

-- The part of `heartbeat` on the agent's row. `now` is read first, `later` under the lock.
unfoldable pub heartbeat :
    Option String
    → (seen locked : Option Row) → Heartbeat
    → (now later : ℕ) → Result DdnsError (Option Agent)
heartbeat token seen locked input now later =
    authenticate_runtime_token token seen now
    >> throw_if (not input.has_report) bad_request
    >> (with_locked token locked (λ s h. runtime_token_matches s h later)
          (λ a. seen_alive a input now)
        >>= λ row. throw_if input.has_conflict conflict >> ok row)

unfoldable pub revoke_runtime :
    Option String → (seen locked : Option Row) → (now : ℕ) → Result DdnsError (Option Agent)
revoke_runtime token seen locked now =
    authenticate_runtime_token token seen now
    >> with_locked token locked current_runtime_token_matches (λ a. disable a now)

-- What a request carries and what its reads outside the row find. `seen` is what its first
-- query finds: between that query and the lock, other requests may have changed the row.
pub data Request : Type 0 where
  create :
      (owned locked : Option AddressMode) (has_installer : Bool) (token_hash : String)
      (expires_in_seconds now : ℕ)
      → Request
  exchange_install :
      (found : Bool) (mode : AddressMode) (install_token_hash runtime_token_hash : String) (now : ℕ)
      → Request
  beat :
      (token : Option String) (seen : Option Row) (mode : AddressMode) (input : Heartbeat)
      (now later : ℕ)
      → Request
  owner_revoke : (owned : Option AddressMode) (now : ℕ) → Request
  self_revoke : (token : Option String) (seen : Option Row) (mode : AddressMode) (now : ℕ) → Request

abbrev pub locked_row : AddressMode → Option Agent → Option Row
locked_row mode none = none
locked_row mode (some a) = some (record { agent = a; mode = mode })

unfoldable pub serve : Option Agent → Request → Result DdnsError (Option Agent)
serve row (create owned locked has_installer token_hash expires_in_seconds now) =
    create_install_token owned locked has_installer row token_hash expires_in_seconds now
serve row (exchange_install found mode install_token_hash runtime_token_hash now) =
    exchange found mode row install_token_hash runtime_token_hash now
serve row (beat token seen mode input now later) =
    heartbeat token seen (locked_row mode row) input now later
serve row (owner_revoke owned now) = revoke owned row now
serve row (self_revoke token seen mode now) = revoke_runtime token seen (locked_row mode row) now

abbrev pub committed : Option Agent → Result DdnsError (Option Agent) → Option Agent
committed row (err thrown) = row
committed row (ok written) = written

unfoldable pub serve_all : Option Agent → List Request → Option Agent
serve_all row [] = row
serve_all row (r ∷ rs) = serve_all (committed row (serve row r)) rs
