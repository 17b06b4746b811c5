-- ===== src/Operations/Errors.antt =====
-- `ProviderError` of packages/contracts/src/errors.ts, and calls that may fail with one and leave a
-- remote state behind in either case.
use master_dns.Common.{ℕ, Bool, true, false, Option, none, some, Result, err, ok}

pub data ProviderErrorCode : Type 0 where
  authentication_failed permission_denied not_found conflict validation_failed : ProviderErrorCode
  rate_limited transient_failure unknown_provider_error : ProviderErrorCode

pub record ProviderError : Type 0 where
  pub code : ProviderErrorCode
  pub retryable : Bool
  pub retry_after_ms : Option ℕ

abbrev pub is_retryable : Option Bool → ProviderErrorCode → Bool
is_retryable (some retryable) code = retryable
is_retryable none rate_limited = true
is_retryable none transient_failure = true
is_retryable none _ = false

abbrev pub provider_error : ProviderErrorCode → (retryable : Option Bool) → Option ℕ → ProviderError
provider_error code retryable retry_after_ms = record {
  code = code;
  retryable = is_retryable retryable code;
  retry_after_ms = retry_after_ms;
}

abbrev pub plain_error : ProviderErrorCode → ProviderError
plain_error code = provider_error code none none

abbrev pub is_not_found : ProviderErrorCode → Bool
is_not_found not_found = true
is_not_found _ = false

abbrev pub is_denial : ProviderErrorCode → Bool
is_denial authentication_failed = true
is_denial permission_denied = true
is_denial _ = false

abbrev pub Call : Type 0 → Type 0 → Type 0
Call R A = R → R × Result ProviderError A

abbrev pub resume :
    {R A B : Type 0} → R × Result ProviderError A → (A → Call R B) → R × Result ProviderError B
resume (r, err e) next = (r, err e)
resume (r, ok a) next = next a r

infixl 5 ◌>>=◌
abbrev pub ◌>>=◌ : {R A B : Type 0} → Call R A → (A → Call R B) → Call R B
◌>>=◌ first next r = resume (first r) next

abbrev pub return_ : {R A : Type 0} → A → Call R A
return_ a r = (r, ok a)

abbrev pub throw : {R A : Type 0} → ProviderErrorCode → Call R A
throw code r = (r, err (plain_error code))
