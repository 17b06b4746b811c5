-- ===== src/Pools/Rows.antt =====
-- `withPoolAddressAvailability`, `getPoolHealthSummaries` and `refreshPoolHealth`.
use master_dns.Common.{
  ℕ, Bool, true, false, not, ◌&&◌, Option, none, some, List, map, String, filter, find,
  if◌then◌else◌,
}
use master_dns.Common.Text.{str_eq}
use master_dns.Health.{HealthState, unknown}
use master_dns.Strategy.Candidates.{same_family}
use master_dns.Strategy.Types.{AddressFamily}
use master_dns.Pools.Projection.{
  PoolEndpoint, PoolAddress, PoolBinding, BindingHealth, PoolHealthInput, PoolHealthSummary,
  project_pool_health,
}

pub record EndpointRow : Type 0 where
  pub id : String
  pub pool_id : String
  pub lifecycle : String

-- An address with the pool of its endpoint.
pub record AddressRow : Type 0 where
  pub id : String
  pub endpoint_id : String
  pub pool_id : String
  pub family : AddressFamily
  pub source : String
  pub address : String
  pub state : String
  pub health_state : HealthState

pub record BindingRow : Type 0 where
  pub id : String
  pub pool_id : String
  pub record_type : String

pub record HealthRow : Type 0 where
  pub health : BindingHealth
  pub pool_id : String

pub record CheckRow : Type 0 where
  pub binding_id : String
  pub pool_id : String
  pub enabled : Bool

pub record LinkRow : Type 0 where
  pub endpoint_id : String
  pub family : AddressFamily
  pub slot_id : String

-- The rows of the pools that are asked for.
pub record PoolRows : Type 0 where
  pub endpoints : List EndpointRow
  pub addresses : List AddressRow
  pub bindings : List BindingRow
  pub health : List HealthRow
  pub checks : List CheckRow
  pub links : List LinkRow

-- The fields of `CloudTargetSummary` that are read.
pub record CloudTarget : Type 0 where
  pub current_address_observed : Bool
  pub current_address : Option String

pub record PoolRow : Type 0 where
  pub id : String
  pub state : HealthState
  pub updated_at : ℕ

abbrev pub is_current_address : Option String → String → Bool
is_current_address none address = false
is_current_address (some current) address = str_eq current address

abbrev pub observes : Option CloudTarget → String → Bool
observes none address = false
observes (some target) address =
    target.current_address_observed && is_current_address target.current_address address

-- `targets` is the map of `getCloudTargetsForSlots`.
module _ (targets : String → Option CloudTarget) where
  abbrev pub target_of : Option LinkRow → Option CloudTarget
  target_of none = none
  target_of (some link) = targets link.slot_id

  abbrev pub find_link : List LinkRow → AddressRow → Option LinkRow
  find_link links row =
      find (λ l. str_eq l.endpoint_id row.endpoint_id && same_family l.family row.family) links

  abbrev pub with_available : AddressRow → Bool → HealthState → PoolAddress
  with_available row available health_state = record {
    id = row.id;
    endpoint_id = row.endpoint_id;
    family = row.family;
    health_state = health_state;
    available = some available;
  }

  unfoldable pub with_pool_address_availability : List LinkRow → AddressRow → PoolAddress
  with_pool_address_availability links row =
      let available = observes (target_of (find_link links row)) row.address in
      if not (str_eq row.source "cloud")
      then with_available row true row.health_state
      else with_available row available (if available then row.health_state else unknown)

  module _ (rows : PoolRows) where
    abbrev pub pool_endpoint : EndpointRow → PoolEndpoint
    pool_endpoint row = record {
      id = row.id;
      lifecycle = row.lifecycle;
      address_families =
          some (map (λ l. l.family) (filter (λ l. str_eq l.endpoint_id row.id) rows.links));
    }

    abbrev pub pool_binding : BindingRow → PoolBinding
    pool_binding row = record { id = row.id; record_type = row.record_type }

    abbrev pub current_rows : String → List AddressRow
    current_rows pool_id =
        filter (λ a. str_eq a.pool_id pool_id)
          (filter (λ a. str_eq a.state "current") rows.addresses)

    abbrev pub pool_input : String → PoolHealthInput
    pool_input pool_id = record {
      endpoints = map pool_endpoint (filter (λ e. str_eq e.pool_id pool_id) rows.endpoints);
      addresses = map (with_pool_address_availability rows.links) (current_rows pool_id);
      bindings = map pool_binding (filter (λ b. str_eq b.pool_id pool_id) rows.bindings);
      binding_health = map (λ h. h.health) (filter (λ h. str_eq h.pool_id pool_id) rows.health);
      override_binding_ids =
          map (λ c. c.binding_id)
            (filter (λ c. str_eq c.pool_id pool_id) (filter (λ c. c.enabled) rows.checks));
    }

    abbrev pub get_pool_health_summaries : List String → List (String × PoolHealthSummary)
    get_pool_health_summaries pool_ids =
        map (λ id. (id, project_pool_health (pool_input id))) pool_ids

    -- The pool's row as it is written.
    unfoldable pub refresh_pool_health : (now : ℕ) → PoolRow → PoolRow
    refresh_pool_health now pool = record pool {
      state = (project_pool_health (pool_input pool.id)).state;
      updated_at = now;
    }
