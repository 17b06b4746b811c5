-- ===== src/Limits/Shown.antt =====
-- What `context` reads after the settings were written.
use master_dns.Common.{
  ◌≡◌, refl, sym, ap, subst, inl, inr, Bool, true, false, Option, none, some, get_or, find_holds,
  String, List, [], ◌∷◌, any, Bool-cases, Result, ok, err, first_returns, ok-injective,
  if◌then◌else◌, update_where, find,
}
use master_dns.Common.Text.{str_eq, str_eq_iff}
use master_dns.Limits.Rules.{
  LimitError, cloud_account_identity_missing, cloud_service_mismatch, CloudService, ec2, lightsail,
  azure_vm, linode,
}
use master_dns.Limits.Settings.{
  LimitSettings, LimitContext, limit_context, identified, account_of, percent_of, is_policy_of,
  LimitAccount, LimitPolicy, same_service, same_provider, cloud_service_provider, put_policy,
}

same_service_refl : (service : CloudService) → same_service service service ≡ true
same_service_refl ec2 = refl
same_service_refl lightsail = refl
same_service_refl azure_vm = refl
same_service_refl linode = refl

own_policy : (p : LimitPolicy) → is_policy_of p.account_id p.service p ≡ true
own_policy p = rw ((str_eq_iff p.account_id p.account_id).1 refl, same_service_refl p.service) refl

find_replaced :
    (p : LimitPolicy) (policies : List LimitPolicy)
    → any (is_policy_of p.account_id p.service) policies ≡ true
    → find
        (is_policy_of p.account_id p.service)
        (update_where (is_policy_of p.account_id p.service) (λ q. p) policies)
      ≡ some p
find_replaced p [] h = cc
find_replaced p (q ∷ policies) h = elim (Bool-cases (is_policy_of p.account_id p.service q)) [
  | inl e ↦ rw (e, own_policy p) refl
  | inr e ↦ rw (e, e) (find_replaced p policies (rw e at h))
]

pub find-put_policy :
    (p : LimitPolicy) (policies : List LimitPolicy)
    → find (is_policy_of p.account_id p.service) (put_policy p policies) ≡ some p
find-put_policy p policies =
    elim (Bool-cases (any (is_policy_of p.account_id p.service) policies)) [
      | inl e ↦ rw e (find_replaced p policies e)
      | inr e ↦ rw (e, own_policy p) refl
    ]

module _ (settings : LimitSettings) (service : CloudService) where
  identified-shows :
      (a : LimitAccount) (external : Option String) {c : LimitContext}
      → identified settings service a external ≡ ok c
      → (c.utilization_percent ≡ percent_of settings.policies service a.id)
        × (c.enabled ≡ get_or settings.switch_ true)
  identified-shows a none h = cc
  identified-shows a (some external) h = elim (Bool-cases (str_eq external "")) [
    | inl e ↦ absurd (err_not_ok (rw e at h))
    | inr e ↦ (
      sym (ap (λ x. x.utilization_percent) (ok-injective _ _ (rw e at h))),
      sym (ap (λ x. x.enabled) (ok-injective _ _ (rw e at h))),
    )
  ]
    where
      err_not_ok :
          {c : LimitContext}
          → ◌≡◌ {A = Result LimitError LimitContext} (err cloud_account_identity_missing) (ok c)
          → ⊥
      err_not_ok e = cc

  account_of-found :
      (found : Option LimitAccount) {a : LimitAccount} → account_of found ≡ ok a → found ≡ some a
  account_of-found none h = cc
  account_of-found (some b) h = ap some (ok-injective _ _ h)

  pub limit_context-shows :
      (account_id : String) {c : LimitContext}
      → limit_context settings account_id service ≡ ok c
      → (c.utilization_percent ≡ percent_of settings.policies service account_id)
        × (c.enabled ≡ get_or settings.switch_ true)
  unfolding limit_context
  limit_context-shows account_id {c} h =
      let (a, found, rest) =
        first_returns (account_of (find (λ a. str_eq a.id account_id) settings.accounts)) _ h in
      subst
        (λ id.
          (c.utilization_percent ≡ percent_of settings.policies service id)
          × (c.enabled ≡ get_or settings.switch_ true))
        ((str_eq_iff a.id account_id).0
          (find_holds (λ a. str_eq a.id account_id) settings.accounts (account_of-found _ found)))
        (of_provider a (same_provider a.provider (cloud_service_provider service)) rest)
    where
      of_provider :
          (a : LimitAccount) (same : Bool)
          → (if same
              then identified settings service a a.external_account_id
              else err cloud_service_mismatch)
            ≡ ok c
          → (c.utilization_percent ≡ percent_of settings.policies service a.id)
            × (c.enabled ≡ get_or settings.switch_ true)
      of_provider a true h = identified-shows a a.external_account_id h
      of_provider a false h = cc
