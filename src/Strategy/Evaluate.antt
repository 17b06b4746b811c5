-- ===== src/Strategy/Evaluate.antt =====
-- `evaluateStrategy`: the loop over the bindings, on working copies of the endpoints.
use Prim.Native.Nat.{Ordering}
use master_dns.Common.{
  ◌+◌, ◌-◌, Bool, true, false, not, ◌&&◌, ◌||◌, Option, none, some, List, [], ◌∷◌, ◌++◌, String,
  any, find, filter, map, get_or, if◌then◌else◌,
}
use master_dns.Common.Text.{str_eq, includes}
use master_dns.Strategy.Types.{
  SelectionMode, round_robin, RecoveryMode, automatic, delayed, Trigger, Reason, StrategyBinding,
  Cursors, StrategyContext, BindingDecision,
}
use master_dns.Strategy.Candidates.{is_available, healthy_for_binding, round_robin_cursor_key}
use master_dns.Strategy.Select.{select_endpoint}
use master_dns.Strategy.Copies.{
  Working, assign, lookup, number_from, or_else, update_count, update_ids,
}

abbrev pub is_recovery : Trigger → Bool
is_recovery Trigger.recovery = true
is_recovery _ = false

abbrev pub is_repair : Trigger → Bool
is_repair Trigger.repair = true
is_repair _ = false

abbrev pub is_configuration : Trigger → Bool
is_configuration Trigger.configuration = true
is_configuration _ = false

abbrev pub is_rebalance : Trigger → Bool
is_rebalance Trigger.rebalance = true
is_rebalance _ = false

abbrev pub recovers : RecoveryMode → Bool
recovers automatic = true
recovers delayed = true
recovers _ = false

abbrev pub is_round_robin : SelectionMode → Bool
is_round_robin round_robin = true
is_round_robin _ = false

abbrev pub has_id : List Working → String → Bool
has_id ws id = any (λ w. str_eq w.endpoint.id id) ws

-- `original !== undefined && usable.some(…) && !currentEndpointIds.includes(original)`
abbrev pub original_usable : Option String → List String → List Working → Bool
original_usable none current usable = false
original_usable (some id) current usable = has_id usable id && not (includes current id)

-- `bindingHealthy.find((endpoint) => endpoint.id === binding.originalEndpointId)`
abbrev pub find_original : Option String → List Working → Option Working
find_original none usable = none
find_original (some id) usable = find (λ w. str_eq w.endpoint.id id) usable

abbrev pub first_found : Option Working → Option Working → Option Working
first_found none later = later
first_found (some w) later = some w

-- `currentEndpointIds.map((id) => bindingHealthy.find(…)).find(Boolean)`
unfoldable pub find_current : List String → List Working → Option Working
find_current [] us = none
find_current (id ∷ ids) us =
    first_found (find (λ w. str_eq w.endpoint.id id) us) (find_current ids us)

pub record LoopState : Type 0 where
  pub working : List Working
  pub cursors : Cursors
  pub decisions : List BindingDecision
  pub no_healthy_endpoints : Bool

-- The endpoints that the binding may use, as working copies.
unfoldable pub usable : StrategyBinding → List Working → List Working
usable b ws = healthy_for_binding (λ w. w.endpoint) b (filter (λ w. is_available w.endpoint) ws) ws

unfoldable pub cursor_key : StrategyBinding → List Working → String
cursor_key b ws = round_robin_cursor_key b (map (λ w. w.endpoint.id) (usable b ws))

unfoldable pub current_healthy : StrategyBinding → List Working → Bool
current_healthy b us = any (has_id us) b.current_endpoint_ids

unfoldable pub recover_original : StrategyContext → StrategyBinding → List Working → Bool
recover_original ctx b us =
    is_recovery ctx.trigger
    && recovers ctx.recovery_mode
    && original_usable b.original_endpoint_id b.current_endpoint_ids us

unfoldable pub should_select : StrategyContext → StrategyBinding → List Working → Bool
unfolding current_healthy recover_original
should_select ctx b us =
    is_rebalance ctx.trigger
    || is_configuration ctx.trigger
    || is_repair ctx.trigger
    || not (current_healthy b us)
    || recover_original ctx b us

-- No endpoint is left: the counts are put back, and the binding keeps what it has.
unfoldable pub keep : LoopState → StrategyBinding → (released : List Working) → LoopState
keep st b released = record {
  working = update_ids (λ n. n + 1) b.current_endpoint_ids released;
  cursors = st.cursors;
  decisions =
      st.decisions
      ++ (record {
        binding_id = b.id;
        previous_endpoint_ids = b.current_endpoint_ids;
        desired_endpoint_ids = b.current_endpoint_ids;
        reason = Reason.no_healthy_endpoint;
      }
          ∷ []);
  no_healthy_endpoints = true;
}

abbrev pub is_only : List String → String → Bool
is_only (x ∷ []) id = str_eq x id
is_only _ id = false

module _ (ctx : StrategyContext) where
  abbrev pub reason_for : StrategyBinding → (before : List Working) → Reason
  reason_for b before =
      if recover_original ctx b (usable b before)
      then Reason.recovery
      else if is_rebalance ctx.trigger || is_configuration ctx.trigger || is_repair ctx.trigger
      then Reason.rebalance
      else Reason.failure

  abbrev pub decision_for :
      StrategyBinding → (before : List Working) → Working → List BindingDecision
  decision_for b before w =
      if not (is_repair ctx.trigger)
        && not (is_configuration ctx.trigger)
        && is_only b.current_endpoint_ids w.endpoint.id
      then []
      else record {
        binding_id = b.id;
        previous_endpoint_ids = b.current_endpoint_ids;
        desired_endpoint_ids = w.endpoint.id ∷ [];
        reason = reason_for b before;
      }
        ∷ []

  unfoldable pub move :
      LoopState → StrategyBinding → (released : List Working) → Working → LoopState
  move st b released w = record {
    working = update_count (λ n. n + 1) w.slot released;
    cursors =
        if is_round_robin ctx.selection_mode
        then assign (cursor_key b st.working) w.endpoint.id st.cursors
        else st.cursors;
    decisions = st.decisions ++ decision_for b st.working w;
    no_healthy_endpoints = st.no_healthy_endpoints;
  }

  abbrev pub settle :
      LoopState → StrategyBinding → (released : List Working) → Option Working → LoopState
  settle st b released none = keep st b released
  settle st b released (some w) = move st b released w

  unfoldable pub start : LoopState
  start = record {
    working = number_from 0 ctx.endpoints;
    cursors = get_or ctx.round_robin_cursors [];
    decisions = [];
    no_healthy_endpoints = false;
  }

module _ (locale_compare : String → String → Ordering) (ctx : StrategyContext) where
  -- `released` are the copies with the binding's current endpoints counted out.
  unfoldable pub choose :
      StrategyBinding → Cursors → (before released : List Working) → Option Working
  choose b cursors before released =
      if recover_original ctx b (usable b before)
      then find_original b.original_endpoint_id (usable b released)
      else if is_repair ctx.trigger && current_healthy b (usable b before)
      then find_current b.current_endpoint_ids (usable b released)
      else select_endpoint locale_compare (λ w. w.endpoint) (usable b released) ctx.selection_mode
          ctx.event_id b (or_else (lookup (cursor_key b before) cursors) ctx.round_robin_cursor)

  unfoldable pub reassign : LoopState → StrategyBinding → LoopState
  reassign st b =
      let released = update_ids (λ n. n - 1) b.current_endpoint_ids st.working in
      settle ctx st b released (choose b st.cursors st.working released)

  -- One round of the loop over `context.bindings`.
  unfoldable pub step : LoopState → StrategyBinding → LoopState
  step st b = if should_select ctx b (usable b st.working) then reassign st b else st

  unfoldable pub run : LoopState → List StrategyBinding → LoopState
  run st [] = st
  run st (b ∷ bs) = run (step st b) bs
