-- ===== src/Strategy/Types.antt =====
-- The types of packages/contracts/src/pools.ts.
use master_dns.Common.{ℕ, Bool, Option, List, String}
use master_dns.Health.{HealthState}

pub data AddressFamily : Type 0 where
  v4 v6 : AddressFamily

pub data PoolStrategy : Type 0 where
  primary_backup healthy_set assignment_pool : PoolStrategy

pub data SelectionMode : Type 0 where
  random ordered round_robin least_assigned : SelectionMode

pub data RecoveryMode : Type 0 where
  automatic keep_current manual delayed : RecoveryMode

pub data EndpointLifecycle : Type 0 where
  enabled disabled maintenance draining : EndpointLifecycle

pub data Trigger : Type 0 where
  failure recovery rebalance configuration repair : Trigger

pub record StrategyEndpoint : Type 0 where
  pub id : String
  pub priority : ℕ
  pub lifecycle : EndpointLifecycle
  pub health_state : HealthState
  pub active_binding_count : ℕ
  pub address_families : Option (List AddressFamily)

-- `endpoint_health_states`, where present, gives the health of each endpoint for this binding.
pub record StrategyBinding : Type 0 where
  pub id : String
  pub original_endpoint_id : Option String
  pub current_endpoint_ids : List String
  pub endpoint_health_states : Option (String → Option HealthState)
  pub required_address_family : Option AddressFamily

-- `Record<string, string>`; the first entry of a key counts.
abbrev pub Cursors : Type 0
Cursors = List (String × String)

pub record StrategyContext : Type 0 where
  pub event_id : String
  pub trigger : Trigger
  pub strategy : PoolStrategy
  pub selection_mode : SelectionMode
  pub recovery_mode : RecoveryMode
  pub endpoints : List StrategyEndpoint
  pub bindings : List StrategyBinding
  pub round_robin_cursor : Option String
  pub round_robin_cursors : Option Cursors

pub data Reason : Type 0 where
  failure recovery rebalance no_healthy_endpoint : Reason

pub record BindingDecision : Type 0 where
  pub binding_id : String
  pub previous_endpoint_ids : List String
  pub desired_endpoint_ids : List String
  pub reason : Reason

pub record StrategyDecision : Type 0 where
  pub event_id : String
  pub decisions : List BindingDecision
  pub next_round_robin_cursors : Option Cursors
  pub no_healthy_endpoints : Bool
