-- ===== src/Pools/Projection.antt =====
-- `projectPoolHealth` and `summarizeHealth`.
use master_dns.Common.{
  ℕ, Bool, true, false, not, ◌&&◌, ◌||◌, Option, none, some, List, [], ◌∷◌, ◌++◌, map, String,
  filter, find, any, all, count_if, if◌then◌else◌,
}
use master_dns.Common.Text.{str_eq}
use master_dns.Strategy.Candidates.{same_family}
use master_dns.Strategy.Types.{AddressFamily, v4, v6}
use master_dns.Health.{HealthState, unknown, healthy, degraded, unhealthy, recovering}

pub record PoolEndpoint : Type 0 where
  pub id : String
  pub lifecycle : String
  pub address_families : Option (List AddressFamily)

pub record PoolAddress : Type 0 where
  pub id : String
  pub endpoint_id : String
  pub family : AddressFamily
  pub health_state : HealthState
  pub available : Option Bool

pub record PoolBinding : Type 0 where
  pub id : String
  pub record_type : String

pub record BindingHealth : Type 0 where
  pub domain_binding_id : String
  pub endpoint_id : String
  pub endpoint_address_id : Option String
  pub health_state : HealthState

pub record PoolHealthInput : Type 0 where
  pub endpoints : List PoolEndpoint
  pub addresses : List PoolAddress
  pub bindings : List PoolBinding
  pub binding_health : List BindingHealth
  pub override_binding_ids : List String

-- An object of health states by id.
abbrev pub States : Type 0
States = List (String × HealthState)

pub record PoolHealthSummary : Type 0 where
  pub state : HealthState
  pub binding_states : States
  pub endpoint_states : States
  pub endpoint_count : ℕ
  pub healthy_endpoint_count : ℕ
  pub waiting_binding_count : ℕ

abbrev pub is_healthy : HealthState → Bool
is_healthy healthy = true
is_healthy _ = false

abbrev pub is_up : HealthState → Bool
is_up healthy = true
is_up degraded = true
is_up _ = false

abbrev pub is_recovering : HealthState → Bool
is_recovering recovering = true
is_recovering _ = false

abbrev pub is_unknown : HealthState → Bool
is_unknown unknown = true
is_unknown _ = false

abbrev pub is_waiting : HealthState → Bool
is_waiting state = is_unknown state || is_recovering state

unfoldable pub summarize_health : List HealthState → HealthState
summarize_health [] = unknown
summarize_health (state ∷ states) =
    if all is_healthy (state ∷ states)
    then healthy
    else if any is_up (state ∷ states)
    then degraded
    else if any is_recovering (state ∷ states)
    then recovering
    else if any is_unknown (state ∷ states)
    then unknown
    else unhealthy

-- An assignment to a key of an object.
abbrev pub put : String → HealthState → States → States
put id state [] = (id, state) ∷ []
put id state ((key, old) ∷ rest) =
    let later = put id state rest in
    if str_eq key id then (key, state) ∷ rest else (key, old) ∷ later

abbrev pub values : States → List HealthState
values states = map (λ entry. entry.1) states

abbrev pub is_missing : Option Bool → Bool
is_missing (some false) = true
is_missing _ = false

abbrev pub family_of : String → AddressFamily
family_of record_type = if str_eq record_type "AAAA" then v6 else v4

abbrev pub has_family : AddressFamily → PoolAddress → Bool
has_family family address = same_family address.family family

abbrev pub names_address : Option String → String → Bool
names_address none id = false
names_address (some own) id = str_eq own id

abbrev pub is_health_of : PoolBinding → PoolEndpoint → PoolAddress → BindingHealth → Bool
is_health_of binding endpoint address row =
    str_eq row.domain_binding_id binding.id
    && str_eq row.endpoint_id endpoint.id
    && names_address row.endpoint_address_id address.id

abbrev pub reported : Option BindingHealth → HealthState
reported none = unknown
reported (some row) = row.health_state

abbrev pub visible_state : PoolAddress → HealthState
visible_state address = if is_missing address.available then unknown else address.health_state

-- Whether an endpoint without an address of the family waits for one.
abbrev pub expects : AddressFamily → Option (List AddressFamily) → List PoolAddress → Bool
expects family (some (f ∷ families)) addresses = any (λ own. same_family own family) (f ∷ families)
expects family _ [] = true
expects family _ (_ ∷ _) = false

module _ (input : PoolHealthInput) where
  abbrev pub enabled : List PoolEndpoint
  enabled = filter (λ e. str_eq e.lifecycle "enabled") input.endpoints

  abbrev pub addresses_of : PoolEndpoint → List PoolAddress
  addresses_of endpoint = filter (λ a. str_eq a.endpoint_id endpoint.id) input.addresses

  abbrev pub has_override : PoolBinding → Bool
  has_override binding = any (λ id. str_eq id binding.id) input.override_binding_ids

  abbrev pub address_state : PoolBinding → PoolEndpoint → PoolAddress → HealthState
  address_state binding endpoint address =
      if is_missing address.available
      then unknown
      else if not (has_override binding)
      then address.health_state
      else reported (find (is_health_of binding endpoint address) input.binding_health)

  abbrev pub candidate_states : PoolBinding → PoolEndpoint → Option PoolAddress → List HealthState
  candidate_states binding endpoint none =
      if expects (family_of binding.record_type) endpoint.address_families (addresses_of endpoint)
      then unknown ∷ []
      else []
  candidate_states binding endpoint (some address) = address_state binding endpoint address ∷ []

  abbrev pub endpoint_candidates : PoolBinding → PoolEndpoint → List HealthState
  endpoint_candidates binding endpoint =
      candidate_states binding endpoint
        (find (has_family (family_of binding.record_type)) (addresses_of endpoint))

  abbrev pub all_candidates : PoolBinding → List PoolEndpoint → List HealthState
  all_candidates binding [] = []
  all_candidates binding (endpoint ∷ endpoints) =
      endpoint_candidates binding endpoint ++ all_candidates binding endpoints

  abbrev pub binding_state : PoolBinding → HealthState
  binding_state binding = summarize_health (all_candidates binding enabled)

  abbrev pub fill_bindings : List PoolBinding → States → States
  fill_bindings [] states = states
  fill_bindings (binding ∷ bindings) states =
      fill_bindings bindings (put binding.id (binding_state binding) states)

  abbrev pub fill_endpoints : List PoolEndpoint → States → States
  fill_endpoints [] states = states
  fill_endpoints (endpoint ∷ endpoints) states =
      fill_endpoints endpoints
        (put endpoint.id (summarize_health (map visible_state (addresses_of endpoint))) states)

  abbrev pub overall : List PoolBinding → (binding_states endpoint_states : States) → HealthState
  overall [] binding_states endpoint_states = summarize_health (values endpoint_states)
  overall (_ ∷ _) binding_states endpoint_states = summarize_health (values binding_states)

  unfoldable pub project_pool_health : PoolHealthSummary
  project_pool_health =
      let binding_states = fill_bindings input.bindings [] in
      let endpoint_states = fill_endpoints enabled [] in
      record {
        state = overall input.bindings binding_states endpoint_states;
        binding_states = binding_states;
        endpoint_states = endpoint_states;
        endpoint_count = count_if (λ e. true) enabled;
        healthy_endpoint_count = count_if is_healthy (values endpoint_states);
        waiting_binding_count = count_if is_waiting (values binding_states);
      }
