-- ===== src/Ddns/Agent.antt =====
-- ddns.service.ts: the row of an endpoint's agent, and the requests that read or write its
-- tokens. A request that throws leaves the row as it was, since the transaction rolls back.
use master_dns.Common.{
  ℕ, ◌+◌, ◌*◌, Bool, true, false, not, ◌&&◌, Option, none, some, String, is_some, Result, err, ok,
  ◌>>◌, throw_if,
}
use master_dns.Ddns.Tokens.{RuntimeTokenState, has_hash, is_after, rotate_runtime_token}

pub data DdnsError : Type 0 where
  not_found bad_request unauthorized conflict : DdnsError

pub data Status : Type 0 where
  active disabled error : Status

pub data AddressMode : Type 0 where
  static ddns cloud : AddressMode

-- The columns of `ddns_agents` that the requests on tokens use.
pub record Agent : Type 0 where
  pub status : Status
  pub revoked_at : Option ℕ
  pub install_token_hash : Option String
  pub install_token_expires_at : Option ℕ
  pub install_token_used_at : Option ℕ
  pub tokens : RuntimeTokenState
  pub hostname : Option String
  pub agent_version : Option String
  pub last_seen_at : Option ℕ

abbrev pub is_active : Status → Bool
is_active active = true
is_active disabled = false
is_active error = false

abbrev pub is_ddns : AddressMode → Bool
is_ddns ddns = true
is_ddns static = false
is_ddns cloud = false

abbrev pub no_tokens : RuntimeTokenState
no_tokens = record {
  runtime_token_hash = none;
  previous_runtime_token_hash = none;
  previous_runtime_token_expires_at = none;
}

-- The set of `onConflictDoUpdate`, and the values of the insert where there is no row.
unfoldable pub put_install_token : Option Agent → String → (expires_at : ℕ) → Agent
put_install_token none token_hash expires_at = record {
  status = active;
  revoked_at = none;
  install_token_hash = some token_hash;
  install_token_expires_at = some expires_at;
  install_token_used_at = none;
  tokens = no_tokens;
  hostname = none;
  agent_version = none;
  last_seen_at = none;
}
put_install_token (some a) token_hash expires_at = record {
  status = active;
  revoked_at = none;
  install_token_hash = some token_hash;
  install_token_expires_at = some expires_at;
  install_token_used_at = none;
  tokens = a.tokens;
  hostname = a.hostname;
  agent_version = a.agent_version;
  last_seen_at = a.last_seen_at;
}

-- The endpoint that a query found must take its address from an agent.
abbrev pub ddns_endpoint : Option AddressMode → Result DdnsError (Unit {0})
ddns_endpoint none = err not_found
ddns_endpoint (some mode) = throw_if (not (is_ddns mode)) bad_request

-- `owned` and `locked` are the endpoint as `findOwnedEndpoint` and the transaction read it;
-- `has_installer` says that `buildDdnsInstallCommand` returned.
unfoldable pub create_install_token :
    (owned locked : Option AddressMode) (has_installer : Bool)
    → Option Agent
    → (token_hash : String) (expires_in_seconds now : ℕ) → Result DdnsError (Option Agent)
create_install_token owned locked has_installer row token_hash expires_in_seconds now =
    ddns_endpoint owned
    >> throw_if (not has_installer) bad_request
    >> ddns_endpoint locked
    >> ok (some (put_install_token row token_hash (now + expires_in_seconds * 1000)))

-- What `revoke` and `revokeRuntime` write.
unfoldable pub disable : Agent → (now : ℕ) → Agent
disable a now = record {
  status = disabled;
  revoked_at = some now;
  install_token_hash = none;
  install_token_expires_at = none;
  install_token_used_at = a.install_token_used_at;
  tokens = no_tokens;
  hostname = a.hostname;
  agent_version = a.agent_version;
  last_seen_at = a.last_seen_at;
}

unfoldable pub revoke :
    Option AddressMode → Option Agent → (now : ℕ) → Result DdnsError (Option Agent)
revoke none row now = err not_found
revoke (some owned) none now = err not_found
revoke (some owned) (some a) now = ok (some (disable a now))

-- The guard of `exchange` on the locked row.
abbrev pub exchanges : AddressMode → Agent → String → (now : ℕ) → Bool
exchanges mode a install_token_hash now =
    is_ddns mode
    && has_hash a.install_token_hash install_token_hash
    && is_active a.status
    && not (is_some a.install_token_used_at)
    && is_after a.install_token_expires_at now

unfoldable pub exchanged : Agent → (runtime_token_hash : String) (now : ℕ) → Agent
exchanged a runtime_token_hash now = record {
  status = a.status;
  revoked_at = a.revoked_at;
  install_token_hash = none;
  install_token_expires_at = a.install_token_expires_at;
  install_token_used_at = some now;
  tokens = rotate_runtime_token a.tokens.runtime_token_hash runtime_token_hash now;
  hostname = a.hostname;
  agent_version = a.agent_version;
  last_seen_at = some now;
}

-- `found` says that the first query, outside the transaction, found this agent by the hash.
unfoldable pub exchange :
    (found : Bool)
    → AddressMode
    → Option Agent
    → (install_token_hash runtime_token_hash : String) → (now : ℕ) → Result DdnsError (Option Agent)
exchange found mode none install_token_hash runtime_token_hash now = err unauthorized
exchange found mode (some a) install_token_hash runtime_token_hash now =
    throw_if (not found) unauthorized
    >> throw_if (not (exchanges mode a install_token_hash now)) unauthorized
    >> ok (some (exchanged a runtime_token_hash now))
