-- ===== src/Limits/Settings.antt =====
-- The settings of an account's limits in packages/db/src/cloud-rotation-limits.ts: `context`, and
-- what `setCloudRotationLimitPolicy` writes. Locks are left out.
use master_dns.Common.{
  ℕ, Bool, true, false, ◌&&◌, Option, none, some, get_or, String, List, [], ◌∷◌, map, filter, find,
  update_where, any, min, Result, ok, err, ◌>>=◌, if◌then◌else◌,
}
use master_dns.Common.Text.{str_eq}
use master_dns.Incidents.Types.{CloudProvider, aws, azure}
use master_dns.Limits.Rules.{
  CloudService, ec2, lightsail, azure_vm, linode, LimitError, cloud_account_not_found,
  cloud_service_mismatch, cloud_account_identity_missing, Rule,
}
use master_dns.Limits.Buckets.{Row, live_state}
use master_dns.Limits.Admission.{is_window}

pub record LimitAccount : Type 0 where
  pub id : String
  pub provider : CloudProvider
  pub external_account_id : Option String

pub record LimitPolicy : Type 0 where
  pub account_id : String
  pub service : CloudService
  pub utilization_percent : ℕ

-- The local accounts with their policies, and the switch of the vendor's account and service. The
-- times of the last update, which nothing reads, are left out.
pub record LimitSettings : Type 0 where
  pub accounts : List LimitAccount
  pub policies : List LimitPolicy
  pub switch_ : Option Bool

pub record LimitContext : Type 0 where
  pub enabled : Bool
  pub utilization_percent : ℕ
  pub effective_percent : ℕ

abbrev pub cloud_service_provider : CloudService → CloudProvider
cloud_service_provider ec2 = aws
cloud_service_provider lightsail = aws
cloud_service_provider azure_vm = azure
cloud_service_provider linode = CloudProvider.linode

abbrev pub same_provider : CloudProvider → CloudProvider → Bool
same_provider aws aws = true
same_provider azure azure = true
same_provider CloudProvider.linode CloudProvider.linode = true
same_provider _ _ = false

abbrev pub same_service : CloudService → CloudService → Bool
same_service ec2 ec2 = true
same_service lightsail lightsail = true
same_service azure_vm azure_vm = true
same_service linode linode = true
same_service _ _ = false

abbrev pub is_policy_of : (account_id : String) → CloudService → LimitPolicy → Bool
is_policy_of account_id service p = str_eq p.account_id account_id && same_service p.service service

abbrev pub percent_in : Option LimitPolicy → ℕ
percent_in none = 80
percent_in (some p) = p.utilization_percent

-- `coalesce(p.utilization_percent, 80)`
abbrev pub percent_of : List LimitPolicy → CloudService → String → ℕ
percent_of policies service id = percent_in (find (is_policy_of id service) policies)

abbrev pub least : ℕ → List ℕ → ℕ
least n [] = n
least n (m ∷ ms) = least (min n m) ms

-- Whether an account is one of the vendor's account `external`.
abbrev pub is_of : CloudProvider → (external : String) → LimitAccount → Bool
is_of provider external a = same_provider a.provider provider && is_id a.external_account_id
  where
    is_id : Option String → Bool
    is_id none = false
    is_id (some id) = str_eq id external

-- The account is among those of its vendor's account, so that its percent bounds the least.
abbrev pub context_of :
    LimitSettings → CloudService → LimitAccount → (external : String) → LimitContext
context_of s service a external = record {
  enabled = get_or s.switch_ true;
  utilization_percent = percent_of s.policies service a.id;
  effective_percent = least (percent_of s.policies service a.id) (
      map (λ b. percent_of s.policies service b.id)
        (filter (is_of a.provider external) s.accounts));
}

abbrev pub identified :
    LimitSettings → CloudService → LimitAccount → Option String → Result LimitError LimitContext
identified s service a none = err cloud_account_identity_missing
identified s service a (some external) =
    if str_eq external ""
    then err cloud_account_identity_missing
    else ok (context_of s service a external)

abbrev pub account_of : Option LimitAccount → Result LimitError LimitAccount
account_of none = err cloud_account_not_found
account_of (some a) = ok a

unfoldable pub limit_context :
    LimitSettings → (account_id : String) → CloudService → Result LimitError LimitContext
limit_context s account_id service = do
  a ← account_of (find (λ a. str_eq a.id account_id) s.accounts)
  if same_provider a.provider (cloud_service_provider service)
      then identified s service a a.external_account_id
      else err cloud_service_mismatch

-- The token bucket of an id.
abbrev pub find_bucket : List Rule → String → Option Rule
find_bucket [] id = none
find_bucket (rule ∷ rules) id =
    let rest = find_bucket rules id in
    if str_eq rule.id id && is_bucket rule then some rule else rest
  where
    is_bucket : Rule → Bool
    is_bucket r = if is_window r.kind then false else true

abbrev pub reprice_by : Option Rule → (now : ℕ) → Row → Row
reprice_by none now row = row
reprice_by (some rule) now row = record row {
  debt = (live_state rule (some row) now).debt;
  updated_at = now;
}

-- The time that has passed is settled at the rates of the rules before.
unfoldable pub reprice : List Rule → (now : ℕ) → List Row → List Row
reprice rules now rows = map (λ row. reprice_by (find_bucket rules row.rule_id) now row) rows

abbrev pub put_policy : LimitPolicy → List LimitPolicy → List LimitPolicy
put_policy p policies =
    if any (is_policy_of p.account_id p.service) policies
    then update_where (is_policy_of p.account_id p.service) (λ q. p) policies
    else p ∷ policies

abbrev pub put_switch : Option Bool → Option Bool → Option Bool
put_switch none stored = stored
put_switch (some enabled) stored = some enabled

abbrev pub put_settings :
    (account_id : String)
    → CloudService
    → (percent : ℕ) → Option Bool
    → LimitSettings
    → LimitSettings
put_settings account_id service percent enabled s = record s {
  policies =
      put_policy
        (record { account_id = account_id; service = service; utilization_percent = percent })
        s.policies;
  switch_ = put_switch enabled s.switch_;
}
