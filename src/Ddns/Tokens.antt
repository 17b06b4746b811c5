-- ===== src/Ddns/Tokens.antt =====
-- ddns-policy.ts: which runtime token is accepted. Tokens stand as their hashes, times in
-- milliseconds.
use master_dns.Common.{
  ℕ, ◌+◌, Bool, false, ◌&&◌, ◌||◌, Option, none, some, String, ltb, if◌then◌else◌,
}
use master_dns.Common.Text.{str_eq}

abbrev pub runtime_token_grace_ms : ℕ
runtime_token_grace_ms = 600000

pub record RuntimeTokenState : Type 0 where
  pub runtime_token_hash : Option String
  pub previous_runtime_token_hash : Option String
  pub previous_runtime_token_expires_at : Option ℕ

-- `stored === tokenHash`, where the column may be null.
abbrev pub has_hash : Option String → String → Bool
has_hash none token_hash = false
has_hash (some stored) token_hash = str_eq stored token_hash

-- `Boolean(time && time > now)`
abbrev pub is_after : Option ℕ → ℕ → Bool
is_after none now = false
is_after (some time) now = ltb now time

unfoldable pub runtime_token_matches : RuntimeTokenState → String → (now : ℕ) → Bool
runtime_token_matches s token_hash now =
    has_hash s.runtime_token_hash token_hash
    || (has_hash s.previous_runtime_token_hash token_hash
        && is_after s.previous_runtime_token_expires_at now)

unfoldable pub current_runtime_token_matches : RuntimeTokenState → String → Bool
current_runtime_token_matches s token_hash = has_hash s.runtime_token_hash token_hash

-- `currentTokenHash ? new Date(…) : null`
abbrev pub grace_end : Option String → ℕ → Option ℕ
grace_end none now = none
grace_end (some h) now = if str_eq h "" then none else some (now + runtime_token_grace_ms)

unfoldable pub rotate_runtime_token : Option String → String → (now : ℕ) → RuntimeTokenState
rotate_runtime_token current_token_hash next_token_hash now = record {
  runtime_token_hash = some next_token_hash;
  previous_runtime_token_hash = current_token_hash;
  previous_runtime_token_expires_at = grace_end current_token_hash now;
}
