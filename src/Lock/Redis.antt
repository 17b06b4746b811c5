-- ===== src/Lock/Redis.antt =====
-- The three commands of the lock on its key, as Redis runs them: `SET key token PX lease NX` and
-- the two scripts. An entry that has expired counts as absent.
use master_dns.Common.{ℕ, ◌+◌, Bool, true, false, Option, none, some, ◌==◌, ltb, if◌then◌else◌}

pub record Entry : Type 0 where
  pub token : ℕ
  pub expires_at : ℕ

-- The entry and whether the command succeeded.
pub record Reply : Type 0 where
  pub entry : Option Entry
  pub granted : Bool

abbrev pub fresh_entry : (token lease now : ℕ) → Option Entry
fresh_entry token lease now = some (record { token = token; expires_at = now + lease })

abbrev pub is_live : Option Entry → ℕ → Bool
is_live none now = false
is_live (some e) now = ltb now e.expires_at

abbrev pub is_owned : Option Entry → (token now : ℕ) → Bool
is_owned none token now = false
is_owned (some e) token now = if ltb now e.expires_at then e.token == token else false

unfoldable pub set_nx : Option Entry → (token lease now : ℕ) → Reply
set_nx entry token lease now =
    if is_live entry now
    then record { entry = entry; granted = false }
    else record { entry = fresh_entry token lease now; granted = true }

unfoldable pub refresh_script : Option Entry → (token lease now : ℕ) → Reply
refresh_script entry token lease now =
    if is_owned entry token now
    then record { entry = fresh_entry token lease now; granted = true }
    else record { entry = entry; granted = false }

unfoldable pub release_script : Option Entry → (token now : ℕ) → Reply
release_script entry token now =
    if is_owned entry token now
    then record { entry = none; granted = true }
    else record { entry = entry; granted = false }
