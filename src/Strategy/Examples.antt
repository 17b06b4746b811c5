-- ===== src/Strategy/Examples.antt =====
-- A pool of three endpoints, and instances of the theorems about its evaluation.

use master_dns.Common.{ℕ, none, some, List, [], ◌∷◌, String, ◌≡◌, refl, All, map}
use master_dns.Health.{HealthState, healthy, degraded, unhealthy}
use master_dns.Strategy.Types.{
  enabled, least_assigned, automatic, primary_backup, healthy_set, Trigger, StrategyEndpoint,
  StrategyBinding, StrategyContext,
}
use master_dns.Strategy.Order.{compare_texts, sort, insert}
use master_dns.Strategy.Select.{select_endpoint, compare_priority, compare_load}
use master_dns.Strategy.Decisions.{IsSound, evaluate_strategy-IsSound}
use master_dns.Strategy.Sets.{IsSoundSet, evaluate_strategy-IsSoundSet}
use master_dns.Strategy.{evaluate_strategy, run, start}
use master_dns.Strategy.Evaluate.{
  should_select, usable, current_healthy, recover_original, reassign, step, choose, cursor_key,
  move, keep, run, start,
}
use master_dns.Strategy.Copies.{update_ids, working_by_id, update_count, number_from, lookup}
use master_dns.Strategy.Candidates.{healthy_for_binding, round_robin_cursor_key}

abbrev endpoint : String → ℕ → HealthState → ℕ → StrategyEndpoint
endpoint id priority state count = record {
  id = id;
  priority = priority;
  lifecycle = enabled;
  health_state = state;
  active_binding_count = count;
  address_families = none;
}

abbrev pool : List StrategyEndpoint
pool = endpoint "a" 1 unhealthy 2 ∷ endpoint "b" 2 healthy 1 ∷ endpoint "c" 2 degraded 0 ∷ []

abbrev binding : String → List String → StrategyBinding
binding id current = record {
  id = id;
  original_endpoint_id = some "a";
  current_endpoint_ids = current;
  endpoint_health_states = none;
  required_address_family = none;
}

abbrev failing : StrategyContext
failing = record {
  event_id = "event-1";
  trigger = Trigger.failure;
  strategy = primary_backup;
  selection_mode = least_assigned;
  recovery_mode = automatic;
  endpoints = pool;
  bindings = binding "www" ("a" ∷ []) ∷ binding "api" ("a" ∷ []) ∷ binding "mail" ("b" ∷ []) ∷ [];
  round_robin_cursor = none;
  round_robin_cursors = none;
}

abbrev as_set : StrategyContext
as_set = record failing { strategy = healthy_set }

evaluate_strategy-IsSound_example :
    All (IsSound failing) (evaluate_strategy compare_texts failing).decisions
evaluate_strategy-IsSound_example = evaluate_strategy-IsSound compare_texts failing (λ e. cc)

evaluate_strategy-IsSoundSet_example :
    All (IsSoundSet as_set) (evaluate_strategy compare_texts as_set).decisions
evaluate_strategy-IsSoundSet_example = evaluate_strategy-IsSoundSet compare_texts as_set refl

-- The two failed bindings are spread over the two endpoints that are left.
spreads :
    map {B = String × List String}
      (λ d. (d.binding_id, d.desired_endpoint_ids))
      (evaluate_strategy compare_texts failing).decisions
    ≡ ("www", "c" ∷ []) ∷ ("api", "b" ∷ []) ∷ []
unfolding evaluate_strategy run start step should_select usable healthy_for_binding current_healthy
    recover_original reassign update_ids working_by_id update_count number_from choose
    select_endpoint sort insert compare_priority compare_load compare_texts cursor_key
    round_robin_cursor_key lookup move keep
spreads = refl
