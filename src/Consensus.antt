-- ===== src/Consensus.antt =====
-- packages/automation/src/probe-consensus.ts: one decision from the outcomes of a round's probes,
-- and the health of an address advanced by it, once for each round.
pub mod Votes
pub mod Stability
pub mod Rounds
mod Examples
use master_dns.Common.{
  ℕ, suc, ◌+◌, ◌-◌, ◌/◌, Bool, true, false, not, ◌&&◌, ◌||◌, Option, none, some, List, [], ◌∷◌, map,
  String, ◌==◌, ltb, leb, if◌then◌else◌, length, count_if, Result, ok, err, ◌>>=◌, ◌>>◌, throw_if,
}
use master_dns.Common.Text.{str_eq, includes}
use master_dns.Health.{
  HealthObservation, HealthThresholds, HealthError, empty_round_id, validate_thresholds,
  apply_health_result,
}

pub data ProbeOutcome : Type 0 where
  success failure unavailable : ProbeOutcome

pub data RoundDecision : Type 0 where
  success failure unknown : RoundDecision

pub data ConsensusMode : Type 0 where
  any majority all at_least specified : ConsensusMode

pub record ConsensusPolicy : Type 0 where
  pub mode : ConsensusMode
  pub minimum_valid : ℕ
  pub failure_votes : Option ℕ
  pub specified_probe_id : Option String

pub data ConsensusError : Type 0 where
  bad_members bad_minimum_valid bad_failure_votes bad_specified no_vote_threshold : ConsensusError

-- `input.outcomes[id]`; a probe that has not reported has none.
abbrev pub Outcomes : Type 0
Outcomes = String → Option ProbeOutcome

abbrev pub is_success : Option ProbeOutcome → Bool
is_success (some ProbeOutcome.success) = true
is_success _ = false

abbrev pub is_failure : Option ProbeOutcome → Bool
is_failure (some ProbeOutcome.failure) = true
is_failure _ = false

abbrev pub is_valid : Option ProbeOutcome → Bool
is_valid o = is_success o || is_failure o

-- `new Set(ids).size`
pub distinct : List String → ℕ
distinct [] = 0
distinct (x ∷ xs) = let rest = distinct xs in if includes xs x then rest else suc rest

-- `!Number.isInteger(votes) || votes < 1 || votes > memberCount`
abbrev pub bad_votes : Option ℕ → ℕ → Bool
bad_votes none n = true
bad_votes (some votes) n = ltb votes 1 || ltb n votes

-- `!id || !memberIds.includes(id)`
abbrev pub bad_probe : Option String → List String → Bool
bad_probe none ids = true
bad_probe (some id) ids = str_eq id "" || not (includes ids id)

abbrev pub check_mode : ConsensusPolicy → ConsensusMode → List String → ℕ → Result ConsensusError ℕ
check_mode p at_least ids n = do throw_if (bad_votes p.failure_votes n) bad_failure_votes; ok n
check_mode p specified ids n = do throw_if (bad_probe p.specified_probe_id ids) bad_specified; ok n
check_mode p mode ids n = ok n

unfoldable pub validate_consensus_input : List String → ConsensusPolicy → Result ConsensusError ℕ
validate_consensus_input ids p = do
  let n = distinct ids
  throw_if (n == 0 || not (n == length ids)) bad_members
  throw_if (ltb p.minimum_valid 1 || ltb n p.minimum_valid) bad_minimum_valid
  check_mode p p.mode ids n

abbrev pub votes_of : ConsensusMode → Option ℕ → ℕ → Result ConsensusError ℕ
votes_of any votes n = ok 1
votes_of majority votes n = ok (n / 2 + 1)
votes_of all votes n = ok n
votes_of at_least none n = err no_vote_threshold
votes_of at_least (some votes) n = ok votes
votes_of specified votes n = err no_vote_threshold

unfoldable pub required_failure_votes : ConsensusPolicy → ℕ → Result ConsensusError ℕ
required_failure_votes p n = votes_of p.mode p.failure_votes n

abbrev pub decision_of : Option ProbeOutcome → RoundDecision
decision_of (some ProbeOutcome.success) = RoundDecision.success
decision_of (some ProbeOutcome.failure) = RoundDecision.failure
decision_of _ = RoundDecision.unknown

-- `input.outcomes[input.policy.specifiedProbeId!]`
abbrev pub outcome_of : Outcomes → Option String → Option ProbeOutcome
outcome_of outcomes none = none
outcome_of outcomes (some id) = outcomes id

unfoldable pub count_votes :
    ConsensusPolicy → (members failures successes : ℕ) → Result ConsensusError RoundDecision
unfolding required_failure_votes
count_votes p n failures successes = do
  votes ← required_failure_votes p n
  ok (
      if leb votes failures
      then RoundDecision.failure
      else if ltb (n - votes) successes
      then RoundDecision.success
      else RoundDecision.unknown)

abbrev pub decide_by :
    ConsensusPolicy
    → ConsensusMode
    → Outcomes
    → (members failures successes : ℕ) → Result ConsensusError RoundDecision
decide_by p specified outcomes n failures successes =
    ok (decision_of (outcome_of outcomes p.specified_probe_id))
decide_by p mode outcomes n failures successes = count_votes p n failures successes

-- How many of the members have an outcome that passes the test.
pub tally : (Option ProbeOutcome → Bool) → Outcomes → List String → ℕ
tally test outcomes ids = count_if test (map outcomes ids)

unfoldable pub evaluate_probe_round :
    List String → Outcomes → ConsensusPolicy → Result ConsensusError RoundDecision
evaluate_probe_round ids outcomes p = do
  n ← validate_consensus_input ids p
  if ltb (tally is_valid outcomes ids) p.minimum_valid
      then ok RoundDecision.unknown
      else decide_by p p.mode outcomes n (tally is_failure outcomes ids)
          (tally is_success outcomes ids)

pub record RoundHealthObservation : Type 0 where
  pub health : HealthObservation
  pub open health use *
  pub last_round_id : Option String

-- `current.lastRoundId === roundId`
abbrev pub seen : Option String → String → Bool
seen none id = false
seen (some last) id = str_eq last id

abbrev pub apply_decision :
    HealthObservation → RoundDecision → HealthThresholds → Result HealthError HealthObservation
apply_decision current RoundDecision.unknown t =
    ok (record current { consecutive_successes = 0; consecutive_failures = 0 })
apply_decision current RoundDecision.success t = apply_health_result current true t
apply_decision current RoundDecision.failure t = apply_health_result current false t

unfoldable pub advance_round_health :
    RoundHealthObservation
    → String
    → RoundDecision
    → HealthThresholds
    → Result HealthError RoundHealthObservation
advance_round_health current round_id decision t = do
  throw_if (str_eq round_id "") empty_round_id
  if seen current.last_round_id round_id then ok current else do
    validate_thresholds t
    health ← apply_decision current.health decision t
    ok (record { health = health; last_round_id = some round_id })
