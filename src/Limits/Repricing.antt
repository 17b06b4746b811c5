-- ===== src/Limits/Repricing.antt =====
-- A change of the policy settles the time that has passed at the rates before it.
use master_dns.Common.{◌≡◌, ℕ, Option, none, some, String, List, ok}
use master_dns.Limits.Rules.{CloudService, Rule}
use master_dns.Limits.Buckets.{Row}
use master_dns.Limits.Admission.{Circumstances}
use master_dns.Limits.Settings.{LimitSettings, LimitContext, limit_context, find_bucket, reprice_by}
use master_dns.Limits.Status.{RotationLimitStatus}

abbrev repriced_row : List Rule → ℕ → String → Option Row → Option Row
repriced_row rules now id none = none
repriced_row rules now id (some row) = some (reprice_by (find_bucket rules id) now row)

module _ (floor_share : (capacity percent : ℕ) → ℕ) (q : Circumstances)
    (service : CloudService) where
  -- A status shows the settings that it is read from.
  Shows : LimitSettings → (account_id : String) → RotationLimitStatus → Type 0
  Shows settings account_id status =
      (c : LimitContext) × (limit_context settings account_id service ≡ ok c)
      × (status.utilization_percent ≡ c.utilization_percent)
      × (status.enabled ≡ c.enabled)
