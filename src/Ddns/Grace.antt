-- ===== src/Ddns/Grace.antt =====
-- The tokens that are accepted right after a rotation.
use master_dns.Common.{ℕ, ◌+◌, ◌<◌, ◌≡◌, ◌↔◌, refl, some, String, true, false, arith}
use master_dns.Common.Text.{str_eq, str_eq_iff}
use master_dns.Ddns.Tokens.{runtime_token_matches, rotate_runtime_token}

-- After a rotation the new token is accepted at all times. The one that it replaces is accepted
-- for ten minutes more: exactly before the time of the rotation plus 600,000 ms. No other token
-- is accepted. (The replaced hash is another than the new one, and not empty.)
pub rotate_runtime_token-grace :
    (old new t : String) (now later : ℕ)
    → str_eq new old ≡ false
    → str_eq old "" ≡ false
    → str_eq new t ≡ false
    → str_eq old t ≡ false
    → (runtime_token_matches (rotate_runtime_token (some old) new now) new later ≡ true)
      × ((runtime_token_matches (rotate_runtime_token (some old) new now) old later ≡ true)
          ↔ (later < now + 600000))
      × (runtime_token_matches (rotate_runtime_token (some old) new now) t later ≡ false)
unfolding runtime_token_matches rotate_runtime_token
rotate_runtime_token-grace old new t now later other full unlike_new unlike_old =
    let same : str_eq new new ≡ true = (str_eq_iff new new).1 refl in
    let this : str_eq old old ≡ true = (str_eq_iff old old).1 refl in
    (ground arith, (λ h. ground arith, λ h. ground arith), ground arith)
