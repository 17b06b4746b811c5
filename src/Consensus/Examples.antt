-- ===== src/Consensus/Examples.antt =====
-- Rounds of three probes, and instances of the theorems about them.
use master_dns.Common.{
  none, some, List, [], ◌∷◌, String, ◌≡◌, ◌↔◌, refl, ok, err, arith, if◌then◌else◌, ◌≤◌, ◌-◌,
}
use master_dns.Consensus.{
  majority, ConsensusPolicy, Outcomes, ProbeOutcome, RoundDecision, evaluate_probe_round,
  HealthThresholds, RoundHealthObservation, advance_round_health, str_eq, validate_consensus_input,
  apply_health_result, distinct, tally, bad_members, count_votes, is_valid, validate_thresholds,
  is_failure, is_success,
}
use master_dns.Consensus.Stability.{Extends, evaluate_probe_round-stable}
use master_dns.Health.{
  apply_health_result, validate_thresholds, observe, degraded, healthy, observe,
}
use master_dns.Consensus.Votes.{IsQuorum, evaluate_probe_round-IsQuorum}

abbrev members : List String
members = "paris" ∷ "tokyo" ∷ "quito" ∷ []

abbrev by_majority : ConsensusPolicy
by_majority = record {
  mode = majority;
  minimum_valid = 2;
  failure_votes = none;
  specified_probe_id = none;
}

-- Two of the three probes report a failure; the third has not reported.
abbrev early : Outcomes
early id = if str_eq id "quito" then none else some ProbeOutcome.failure

abbrev late : Outcomes
late id = if str_eq id "quito" then some ProbeOutcome.success else some ProbeOutcome.failure

input_ok : validate_consensus_input members by_majority ≡ ok 3
unfolding validate_consensus_input distinct
input_ok = refl

early_fails : evaluate_probe_round members early by_majority ≡ ok RoundDecision.failure
unfolding evaluate_probe_round validate_consensus_input distinct tally count_votes
early_fails = refl

repeated_member_throws :
    evaluate_probe_round ("paris" ∷ "paris" ∷ []) early by_majority ≡ err bad_members
unfolding evaluate_probe_round validate_consensus_input distinct
repeated_member_throws = refl

early-Extends : Extends early late
early-Extends id h = ground arith

evaluate_probe_round-IsQuorum_example :
    ((evaluate_probe_round members early by_majority ≡ ok RoundDecision.failure) ↔ (
      (2 ≤ tally is_valid early members)
      × IsQuorum majority none 3 (tally is_failure early members)))
    × ((evaluate_probe_round members early by_majority ≡ ok RoundDecision.success) ↔ (
        (2 ≤ tally is_valid early members)
        × (¬ IsQuorum majority none 3 (3 - tally is_success early members))))
evaluate_probe_round-IsQuorum_example =
    evaluate_probe_round-IsQuorum members by_majority 3 input_ok early (λ e. cc)

evaluate_probe_round-stable_example :
    evaluate_probe_round members late by_majority ≡ ok RoundDecision.failure
evaluate_probe_round-stable_example =
    evaluate_probe_round-stable early late early-Extends members by_majority RoundDecision.failure
      early_fails (λ e. cc)

abbrev thresholds : HealthThresholds
thresholds = record { failure_threshold = 3; success_threshold = 2 }

abbrev steady : RoundHealthObservation
steady = record {
  health = record { state = healthy; consecutive_successes = 5; consecutive_failures = 0 };
  last_round_id = some "round-1";
}

abbrev shaken : RoundHealthObservation
shaken = record {
  health = record { state = degraded; consecutive_successes = 0; consecutive_failures = 1 };
  last_round_id = some "round-2";
}

shakes : advance_round_health steady "round-2" RoundDecision.failure thresholds ≡ ok shaken
unfolding advance_round_health apply_health_result validate_thresholds observe
shakes = refl
