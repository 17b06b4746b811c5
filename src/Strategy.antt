-- ===== src/Strategy.antt =====
-- packages/automation/src/strategy.ts: which endpoint each DNS binding of a pool points to.
pub mod Types
pub mod Order
pub mod Candidates
pub mod Select
pub mod Copies
pub mod Evaluate
pub mod HealthySet
pub mod Sorting
pub mod Selection
pub mod Usable
pub mod Unusable
pub mod Keeping
pub mod Decisions
pub mod Sets
mod Examples
use Prim.Native.Nat.{Ordering}
use master_dns.Common.{Bool, Option, none, some, String, if◌then◌else◌}
use Types.{PoolStrategy, healthy_set, StrategyContext, StrategyDecision}
use Evaluate.{LoopState, run, start, is_round_robin}
use HealthySet.{evaluate_healthy_set}

abbrev pub decision_of_loop : StrategyContext → LoopState → StrategyDecision
decision_of_loop ctx st = record {
  event_id = ctx.event_id;
  decisions = st.decisions;
  next_round_robin_cursors = if is_round_robin ctx.selection_mode then some st.cursors else none;
  no_healthy_endpoints = st.no_healthy_endpoints;
}

abbrev pub evaluate_by :
    (String → String → Ordering) → PoolStrategy → StrategyContext → StrategyDecision
evaluate_by locale_compare healthy_set ctx = evaluate_healthy_set ctx
evaluate_by locale_compare strategy ctx =
    decision_of_loop ctx (run locale_compare ctx (start ctx) ctx.bindings)

unfoldable pub evaluate_strategy : (String → String → Ordering) → StrategyContext → StrategyDecision
evaluate_strategy locale_compare ctx = evaluate_by locale_compare ctx.strategy ctx
