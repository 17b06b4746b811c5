-- ===== src/Limits/Status.antt =====
-- `getCloudRotationLimitStatus`, `setCloudRotationLimitPolicy` and `wakeCloudRotationLimitWaits`.
use master_dns.Common.{
  ℕ, ◌+◌, ◌-◌, ◌*◌, Bool, false, ◌&&◌, ◌||◌, Option, none, some, String, List, [], ◌∷◌, ◌++◌, map,
  filter, length, find, update_where, ltb, Result, ok, ◌>>=◌, ◌>>◌, throw_if, if◌then◌else◌,
}
use master_dns.Common.Text.{str_eq, utf16, starts_with}
use master_dns.Limits.Rules.{
  CloudService, LimitError, bad_percent, Scope, Rule, RuleKind, token_bucket, sliding_window,
  write_units, cloud_rotation_limit_rules,
}
use master_dns.Limits.Buckets.{same_region, Row, LiveState, live_state, retry_time}
use master_dns.Limits.Admission.{Circumstances, Store, pending_ids, is_over, is_lightsail}
use master_dns.Limits.Reserve.{find_cooldown, cooldown_of, running_cooldown}
use master_dns.Limits.Throttle.{record_throttle}
use master_dns.Limits.Rules.{cloud_rotation_rules_for_action}
use master_dns.Limits.Settings.{
  LimitSettings, LimitAccount, LimitContext, limit_context, reprice, put_settings, same_provider,
  same_service,
}

-- Amounts are in units of `write_units` to a write.
pub record RotationLimitUsage : Type 0 where
  pub rule_id : String
  pub region : Option String
  pub used : ℕ
  pub remaining : ℕ
  pub retry_at : Option ℕ

pub record RotationLimitStatus : Type 0 where
  pub enabled : Bool
  pub utilization_percent : ℕ
  pub effective_percent : ℕ
  pub rules : List Rule
  pub usage : List RotationLimitUsage

abbrev pub used_units : RuleKind → LiveState → (waiting : ℕ) → ℕ
used_units (token_bucket units) state waiting = state.debt
used_units (sliding_window seconds) state waiting = (length state.events + waiting) * write_units

-- The later of the rule's time and that of a cooldown which is still running.
abbrev pub later_time : Option ℕ → Option ℕ → Option ℕ
later_time retry_at none = retry_at
later_time none (some until) = some until
later_time (some at) (some until) = if ltb at until then some until else some at

abbrev pub region_of : Option Row → Option String
region_of none = none
region_of (some row) = row.region

-- The reservations that a rule counts.
abbrev pub waiting_for : Rule → (pending : ℕ) → ℕ
waiting_for rule pending =
    if starts_with (utf16 rule.id) (utf16 "lightsail.static-ip.") then pending else 0

abbrev pub usage_of :
    LimitContext
    → Rule
    → (pending : ℕ) → (cooldown : Option ℕ) → (now : ℕ) → Option Row
    → RotationLimitUsage
usage_of c rule pending cooldown now row =
    let state = live_state rule row now in
    let waiting = waiting_for rule pending in
    let used = used_units rule.kind state waiting in
    record {
      rule_id = rule.id;
      region = region_of row;
      used = used;
      remaining = rule.capacity * write_units - used;
      retry_at =
          later_time
            (if c.enabled && is_over rule.kind state rule.capacity waiting 1
              then some (retry_time rule state waiting 1 now)
              else none)
            (running_cooldown cooldown now);
    }

-- The rows of a rule. A global rule without one counts as unused.
abbrev pub entries_of : Scope → List Row → List (Option Row)
entries_of scope (row ∷ rows) = map (λ r. some r) (row ∷ rows)
entries_of Scope.global [] = none ∷ []
entries_of Scope.region [] = []

abbrev pub usages :
    LimitContext
    → (pending : ℕ) → (cooldown : Option ℕ) → (now : ℕ) → List Row
    → List Rule
    → List RotationLimitUsage
usages c pending cooldown now rows [] = []
usages c pending cooldown now rows (rule ∷ rules) =
    map (usage_of c rule pending cooldown now)
      (entries_of rule.scope (filter (λ row. str_eq row.rule_id rule.id) rows))
    ++ usages c pending cooldown now rows rules

-- The number of reservations that wait, where the service has any.
abbrev pub waiting_reservations : Circumstances → CloudService → Store → ℕ
waiting_reservations q service store =
    if is_lightsail service then length (pending_ids q store.reservations) else 0

module _ (floor_share : (capacity percent : ℕ) → ℕ) where
  abbrev pub status_of :
      LimitContext → (pending now : ℕ) → List Row → List Rule → RotationLimitStatus
  status_of c pending now rows rules = record {
    enabled = c.enabled;
    utilization_percent = c.utilization_percent;
    effective_percent = c.effective_percent;
    rules = rules;
    usage = usages c pending (cooldown_of (find_cooldown rows)) now rows rules;
  }

  unfoldable pub get_cloud_rotation_limit_status :
      Circumstances
      → (account_id : String) → CloudService
      → (now : ℕ) → LimitSettings
      → Store
      → Result LimitError RotationLimitStatus
  get_cloud_rotation_limit_status q account_id service now settings store = do
    c ← limit_context settings account_id service
    rules ← cloud_rotation_limit_rules floor_share service c.effective_percent
    ok (status_of c (waiting_reservations q service store) now store.rows rules)

  -- The settings and the store after it, and the status that is read at the end.
  unfoldable pub set_cloud_rotation_limit_policy :
      Circumstances
      → (account_id : String) → CloudService
      → (percent : ℕ) → Option Bool
      → (now read_at : ℕ) → LimitSettings
      → Store
      → Result LimitError (LimitSettings × Store × RotationLimitStatus)
  set_cloud_rotation_limit_policy q account_id service percent enabled now read_at settings store =
      do
        throw_if (ltb percent 1 || ltb 100 percent) bad_percent
        previous ← limit_context settings account_id service
        rules ← cloud_rotation_limit_rules floor_share service previous.effective_percent
        status ←
            get_cloud_rotation_limit_status q account_id service read_at
              (put_settings account_id service percent enabled settings)
              (record store { rows = reprice rules now store.rows })
        ok (
          put_settings account_id service percent enabled settings,
          record store { rows = reprice rules now store.rows },
          status,
        )

pub record LimitedResource : Type 0 where
  pub cleanup_error : Option String
  pub cleanup_due_at : Option ℕ

-- An incident with the account and the service of its slot's instance, and its resources.
pub record LimitedIncident : Type 0 where
  pub account : LimitAccount
  pub service : CloudService
  pub is_active : Bool
  pub error_code : Option String
  pub next_run_at : ℕ
  pub resources : List LimitedResource

abbrev pub is_limited : Option String → Bool
is_limited none = false
is_limited (some code) = str_eq code "rotation_rate_limited"

abbrev pub has_identity : LimitAccount → CloudService → LimitedIncident → Bool
has_identity a service i =
    same_provider i.account.provider a.provider
    && same_region i.account.external_account_id a.external_account_id
    && same_service i.service service

abbrev pub wake_resource : (now : ℕ) → LimitedResource → LimitedResource
wake_resource now r =
    if is_limited r.cleanup_error then record r { cleanup_due_at = some now } else r

abbrev pub wake : (now : ℕ) → LimitedIncident → LimitedIncident
wake now i = record i {
  next_run_at = if is_limited i.error_code then now else i.next_run_at;
  resources = map (wake_resource now) i.resources;
}

abbrev pub wake_found :
    Option LimitAccount → CloudService → (now : ℕ) → List LimitedIncident → List LimitedIncident
wake_found none service now incidents = incidents
wake_found (some a) service now incidents =
    update_where (λ i. has_identity a service i && i.is_active) (wake now) incidents

unfoldable pub wake_cloud_rotation_limit_waits :
    LimitSettings
    → (account_id : String) → CloudService
    → (now : ℕ) → List LimitedIncident
    → List LimitedIncident
wake_cloud_rotation_limit_waits s account_id service now incidents =
    wake_found (find (λ a. str_eq a.id account_id) s.accounts) service now incidents

-- `recordCloudRotationThrottle` as a whole: the cooldown is written for a supported action of an
-- account that is known.
unfoldable pub record_cloud_rotation_throttle :
    (floor_share : (capacity percent : ℕ) → ℕ) (account_id : String) (service : CloudService)
    (action : String) (delay : Option ℕ) (now : ℕ) (settings : LimitSettings)
    → Store
    → Result LimitError Store
record_cloud_rotation_throttle floor_share account_id service action delay now settings store = do
  rules ← cloud_rotation_rules_for_action floor_share service action 80
  context ← limit_context settings account_id service
  ok (record_throttle delay now store)
