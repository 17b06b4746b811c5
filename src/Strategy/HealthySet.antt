-- ===== src/Strategy/HealthySet.antt =====
-- `evaluateHealthySet`: every binding points to all the endpoints that it may use.
use master_dns.Common.{
  Bool, true, false, not, ◌&&◌, ◌||◌, none, List, [], ◌∷◌, ◌++◌, String, map, filter, length, ltb,
  if◌then◌else◌,
}
use master_dns.Common.Text.{str_eq, includes}
use master_dns.Strategy.Types.{
  RecoveryMode, keep_current, manual, Reason, StrategyEndpoint, StrategyBinding, StrategyContext,
  BindingDecision, StrategyDecision,
}
use master_dns.Strategy.Order.{sort, compare_texts}
use master_dns.Strategy.Candidates.{is_available, healthy_for_binding}
use master_dns.Strategy.Evaluate.{is_recovery, is_repair, is_configuration}

abbrev pub keeps_current : RecoveryMode → Bool
keeps_current keep_current = true
keeps_current manual = true
keeps_current _ = false

abbrev pub is_empty {ℓ} : {A : Type ℓ} → List A → Bool
is_empty [] = true
is_empty (x ∷ xs) = false

unfoldable pub same_ids : List String → List String → Bool
same_ids [] [] = true
same_ids (x ∷ xs) (y ∷ ys) = str_eq x y && same_ids xs ys
same_ids _ _ = false

-- The endpoints that the binding may use.
unfoldable pub available_for : StrategyContext → StrategyBinding → List StrategyEndpoint
available_for ctx b =
    healthy_for_binding (λ e. e) b (filter is_available ctx.endpoints) ctx.endpoints

unfoldable pub available_current : StrategyContext → StrategyBinding → List StrategyEndpoint
available_current ctx b = filter (λ e. includes b.current_endpoint_ids e.id) (available_for ctx b)

unfoldable pub preserves : StrategyContext → Bool
preserves ctx = is_recovery ctx.trigger && keeps_current ctx.recovery_mode

unfoldable pub desired_ids : StrategyContext → StrategyBinding → List String
desired_ids ctx b = sort compare_texts (
    map (λ e. e.id)
      (if preserves ctx && not (is_empty (available_current ctx b))
        then available_current ctx b
        else available_for ctx b))

abbrev pub sorted_current : StrategyBinding → List String
sorted_current b = sort compare_texts b.current_endpoint_ids

abbrev pub repoints : StrategyContext → Bool
repoints ctx = is_configuration ctx.trigger || is_repair ctx.trigger

abbrev pub set_reason : StrategyContext → (desired current : List String) → Reason
set_reason ctx desired current =
    if repoints ctx
    then Reason.rebalance
    else if ltb (length current) (length desired)
    then Reason.recovery
    else Reason.failure

unfoldable pub decide_set : StrategyContext → StrategyBinding → List BindingDecision
decide_set ctx b =
    if is_empty (desired_ids ctx b)
    then record {
      binding_id = b.id;
      previous_endpoint_ids = sorted_current b;
      desired_endpoint_ids = sorted_current b;
      reason = Reason.no_healthy_endpoint;
    }
      ∷ []
    else if not (repoints ctx) && same_ids (sorted_current b) (desired_ids ctx b)
    then []
    else record {
      binding_id = b.id;
      previous_endpoint_ids = sorted_current b;
      desired_endpoint_ids = desired_ids ctx b;
      reason = set_reason ctx (desired_ids ctx b) (sorted_current b);
    }
      ∷ []

unfoldable pub decide_sets : StrategyContext → List StrategyBinding → List BindingDecision
decide_sets ctx [] = []
decide_sets ctx (b ∷ bs) = decide_set ctx b ++ decide_sets ctx bs

-- `noHealthyEndpoints ||= desired.length === 0`, over the bindings.
unfoldable pub none_healthy : StrategyContext → List StrategyBinding → Bool
none_healthy ctx [] = false
none_healthy ctx (b ∷ bs) = is_empty (desired_ids ctx b) || none_healthy ctx bs

unfoldable pub evaluate_healthy_set : StrategyContext → StrategyDecision
unfolding none_healthy
evaluate_healthy_set ctx = record {
  event_id = ctx.event_id;
  decisions = decide_sets ctx ctx.bindings;
  next_round_robin_cursors = none;
  no_healthy_endpoints = none_healthy ctx ctx.bindings;
}
