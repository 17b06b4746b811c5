-- ===== src/Incidents/Evidence.antt =====
-- `lockRotationHealth` and `healthRevisions`, and `hasFreshHealthEvidence`
-- of packages/db/src/address-health.ts.
use master_dns.Common.{
  ℕ, Bool, true, false, ◌&&◌, ◌||◌, Option, none, some, List, String, find, ltb, leb, ◌==◌, Result,
  ok, err,
}
use master_dns.Common.Text.{str_eq}
use master_dns.Strategy.Types.{AddressFamily}
use master_dns.Strategy.Candidates.{same_family}
use master_dns.Health.{HealthState, healthy, unhealthy}
use master_dns.Consensus.{RoundDecision, success, failure}
use master_dns.Incidents.Types.{SlotAddress, RotationContext, HealthRevisions, address_version}
use master_dns.Incidents.Policy.{same_id}

pub record AddressHealthPolicy : Type 0 where
  pub id : String
  pub slot_id : Option String
  pub family : AddressFamily
  pub config_id : String
  pub mode : String
  pub group_id : Option String
  pub revision : ℕ
  pub success_threshold : ℕ
  pub failure_threshold : ℕ

pub record HealthCheckConfig : Type 0 where
  pub id : String
  pub slot_id : Option String
  pub enabled : Bool
  pub revision : ℕ

pub record ProbeGroup : Type 0 where
  pub id : String
  pub owner_user_id : String
  pub revision : ℕ

pub record AddressHealthState : Type 0 where
  pub slot_id : Option String
  pub family : AddressFamily
  pub address_id : Option String
  pub address_version : ℕ
  pub config_id : Option String
  pub config_version : ℕ
  pub policy_id : Option String
  pub policy_revision : ℕ
  pub group_revision : Option ℕ
  pub health_state : HealthState
  pub consecutive_successes : ℕ
  pub consecutive_failures : ℕ
  pub latest_decision : RoundDecision
  pub evidence_expires_at : Option ℕ

pub record HealthTables : Type 0 where
  pub policies : List AddressHealthPolicy
  pub configs : List HealthCheckConfig
  pub groups : List ProbeGroup
  pub states : List AddressHealthState

pub record RotationHealth : Type 0 where
  pub policy : Option AddressHealthPolicy
  pub config : Option HealthCheckConfig
  pub group : Option ProbeGroup
  pub configured : Bool
  pub matches : Bool
  pub now : ℕ
  pub success : Bool
  pub failure : Bool

abbrev pub is_id : Option String → String → Bool
is_id own id = same_id own (some id)

abbrev pub is_healthy : HealthState → Bool
is_healthy healthy = true
is_healthy _ = false

abbrev pub is_unhealthy : HealthState → Bool
is_unhealthy unhealthy = true
is_unhealthy _ = false

abbrev pub same_decision : RoundDecision → RoundDecision → Bool
same_decision success success = true
same_decision failure failure = true
same_decision RoundDecision.unknown RoundDecision.unknown = true
same_decision _ _ = false

abbrev pub is_after : Option ℕ → ℕ → Bool
is_after none now = false
is_after (some expiry) now = ltb now expiry

abbrev pub reaches : AddressHealthState → RoundDecision → AddressHealthPolicy → Bool
reaches state success policy = leb policy.success_threshold state.consecutive_successes
reaches state _ policy = leb policy.failure_threshold state.consecutive_failures

-- The state that the decision asks for; it is a success or a failure.
abbrev pub is_state_for : RoundDecision → HealthState → Bool
is_state_for success state = is_healthy state
is_state_for _ state = is_unhealthy state

unfoldable pub has_fresh_health_evidence :
    AddressHealthState → RoundDecision → AddressHealthPolicy → ℕ → Bool
has_fresh_health_evidence state decision policy now =
    same_decision state.latest_decision decision
    && is_after state.evidence_expires_at now
    && is_state_for decision state.health_state
    && reaches state decision policy

abbrev pub find_config : HealthTables → Option AddressHealthPolicy → Option HealthCheckConfig
find_config t none = none
find_config t (some policy) = find (λ x. str_eq x.id policy.config_id) t.configs

abbrev pub find_group_by : HealthTables → Option String → Option ProbeGroup
find_group_by t none = none
find_group_by t (some id) = find (λ g. str_eq g.id id) t.groups

abbrev pub find_group : HealthTables → Option AddressHealthPolicy → Option ProbeGroup
find_group t none = none
find_group t (some policy) = find_group_by t policy.group_id

abbrev pub is_configured :
    RotationContext
    → Option AddressHealthPolicy
    → Option HealthCheckConfig
    → Option ProbeGroup
    → Bool
is_configured c (some policy) (some config) (some group) =
    same_family policy.family c.slot.family
    && (str_eq policy.mode "external" || str_eq policy.mode "mixed")
    && config.enabled
    && is_id config.slot_id c.slot.id
    && str_eq group.owner_user_id c.account.owner_user_id
is_configured c _ _ _ = false

abbrev pub address_id_of : Option SlotAddress → Option String
address_id_of none = none
address_id_of (some a) = some a.id

abbrev pub is_number : Option ℕ → ℕ → Bool
is_number none n = false
is_number (some m) n = m == n

abbrev pub holds_id : Option String → Option String → Bool
holds_id own none = false
holds_id own (some id) = is_id own id

abbrev pub state_matches :
    RotationContext
    → Option AddressHealthPolicy
    → Option HealthCheckConfig
    → Option ProbeGroup
    → AddressHealthState
    → Bool
state_matches c (some policy) (some config) (some group) state =
    same_family state.family c.slot.family
    && holds_id state.address_id (address_id_of c.address)
    && state.address_version == address_version c.slot
    && is_id state.config_id config.id
    && state.config_version == config.revision
    && is_id state.policy_id policy.id
    && state.policy_revision == policy.revision
    && is_number state.group_revision group.revision
state_matches c _ _ _ state = false

abbrev pub proves :
    Option AddressHealthState → Option AddressHealthPolicy → RoundDecision → ℕ → Bool
proves (some state) (some policy) decision now =
    has_fresh_health_evidence state decision policy now && reaches state decision policy
proves _ _ decision now = false

abbrev pub matches_any : (AddressHealthState → Bool) → Option AddressHealthState → Bool
matches_any test none = false
matches_any test (some state) = test state

unfoldable pub lock_rotation_health : HealthTables → RotationContext → ℕ → RotationHealth
lock_rotation_health t c now =
    let policy = find (λ p. is_id p.slot_id c.slot.id) t.policies in
    let config = find_config t policy in
    let group = find_group t policy in
    let state = find (λ s. is_id s.slot_id c.slot.id) t.states in
    let configured = is_configured c policy config group in
    let matching = configured && matches_any (state_matches c policy config group) state in
    record {
      policy = policy;
      config = config;
      group = group;
      configured = configured;
      matches = matching;
      now = now;
      success = matching && proves state policy success now;
      failure = matching && proves state policy failure now;
    }

abbrev pub revisions_of :
    Bool
    → Option AddressHealthPolicy
    → Option HealthCheckConfig
    → Option ProbeGroup
    → Option HealthRevisions
revisions_of true (some policy) (some config) (some group) = some (record {
  health_policy_id = policy.id;
  health_policy_revision = policy.revision;
  config_id = config.id;
  config_revision = config.revision;
  group_id = group.id;
  group_revision = group.revision;
})
revisions_of _ _ _ _ = none

abbrev pub required : Option HealthRevisions → Result String HealthRevisions
required none = err "external_health_required"
required (some revisions) = ok revisions

abbrev pub health_revisions : RotationHealth → Result String HealthRevisions
health_revisions h = required (revisions_of h.configured h.policy h.config h.group)
