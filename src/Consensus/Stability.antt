-- ===== src/Consensus/Stability.antt =====
-- Outcomes that arrive later do not turn a decision round.
use master_dns.Common.{
  [], ◌∷◌, none, some, ℕ, ◌≡◌, refl, Option, List, String, ◌≤◌, arith, ok, true, ◌∷◌, ◌≢◌,
  first_returns, some, length, ◌⊎◌, inl, inr,
}
use master_dns.Consensus.{
  ConsensusMode, any, majority, all, at_least, specified, ConsensusPolicy, Outcomes, is_success,
  tally, evaluate_probe_round, is_valid, is_failure, decision_of, RoundDecision, outcome_of,
  count_votes, required_failure_votes, validate_consensus_input, specified, decide_by,
}
use master_dns.Consensus.Votes.{tally-add, tally-le, votes-within, members-eq}

-- `later` holds the success and failure outcomes of `earlier`, and maybe more.
abbrev pub Extends : Outcomes → Outcomes → Type 0
Extends earlier later = (id : String) → is_valid (earlier id) ≡ true → later id ≡ earlier id

mode_cases : (m : ConsensusMode) → (m ≡ specified) ⊎ (m ≢ specified)
mode_cases specified = inl refl
mode_cases any = inr (λ e. cc)
mode_cases majority = inr (λ e. cc)
mode_cases all = inr (λ e. cc)
mode_cases at_least = inr (λ e. cc)

decide_by-count :
    (p : ConsensusPolicy) (o : Outcomes) (n f s : ℕ)
    → p.mode ≢ specified
    → decide_by p p.mode o n f s ≡ count_votes p n f s
decide_by-count p o n f s m = ground arith

within :
    (ids : List String) (p : ConsensusPolicy) (n : ℕ)
    → validate_consensus_input ids p ≡ ok n
    → p.mode ≢ specified
    → (v : ℕ) × (required_failure_votes p n ≡ ok v) × (v ≤ n)
within ids p n valid m = let (v, e, pos, le) = votes-within ids p n valid m in (v, e, le)

-- A decision comes from valid input.
validated :
    (o : Outcomes) (ids : List String) (p : ConsensusPolicy) {d : RoundDecision}
    → evaluate_probe_round ids o p ≡ ok d
    → (n : ℕ) × (validate_consensus_input ids p ≡ ok n)
unfolding evaluate_probe_round
validated o ids p e =
    let (n, valid, rest) = first_returns (validate_consensus_input ids p) _ e in (n, valid)

module _ (o o' : Outcomes) (more : Extends o o') where
  tally_success_mono : (ids : List String) → tally is_success o ids ≤ tally is_success o' ids
  unfolding tally
  tally_success_mono [] = omega arith
  tally_success_mono (id ∷ ids) = ground (arith, more id, tally_success_mono ids)

  tally_failure_mono : (ids : List String) → tally is_failure o ids ≤ tally is_failure o' ids
  unfolding tally
  tally_failure_mono [] = omega arith
  tally_failure_mono (id ∷ ids) = ground (arith, more id, tally_failure_mono ids)

  enough : (ids : List String) → tally is_valid o ids ≤ tally is_valid o' ids
  enough ids =
      omega
        (arith, tally-add o ids, tally-add o' ids, tally_success_mono ids, tally_failure_mono ids)

  decision_of-stable :
      (id : Option String)
      → decision_of (outcome_of o id) ≢ RoundDecision.unknown
      → decision_of (outcome_of o' id) ≡ decision_of (outcome_of o id)
  decision_of-stable none h = refl
  decision_of-stable (some id) h = ground (arith, more id)

  count_votes-stable :
      (p : ConsensusPolicy) (n : ℕ) (ids : List String) (d : RoundDecision)
      → ((v : ℕ) × (required_failure_votes p n ≡ ok v) × (v ≤ n))
      → length ids ≤ n
      → count_votes p n (tally is_failure o ids) (tally is_success o ids) ≡ ok d
      → d ≢ RoundDecision.unknown
      → count_votes p n (tally is_failure o' ids) (tally is_success o' ids) ≡ ok d
  unfolding count_votes
  count_votes-stable p n ids d (v, e, le) len c h = ground (
    arith,
    tally_success_mono ids,
    tally_failure_mono ids,
    tally-add o' ids,
    tally-le is_valid o' ids,
  )

  -- Once a round is decided as a success or a failure, the outcomes of the members that had not
  -- reported, whatever they are, leave the decision as it is.
  pub evaluate_probe_round-stable :
      (ids : List String) (p : ConsensusPolicy) (d : RoundDecision)
      → evaluate_probe_round ids o p ≡ ok d
      → d ≢ RoundDecision.unknown
      → evaluate_probe_round ids o' p ≡ ok d
  unfolding evaluate_probe_round
  evaluate_probe_round-stable ids p d e h =
      let (n, valid) = validated o ids p e in
      elim (mode_cases p.mode) [
        | inl m ↦ ground (arith, valid, enough ids, decision_of-stable p.specified_probe_id)
        | inr m ↦ ground (
          arith,
          valid,
          enough ids,
          decide_by-count p o n (tally is_failure o ids) (tally is_success o ids) m,
          decide_by-count p o' n (tally is_failure o' ids) (tally is_success o' ids) m,
          count_votes-stable p n ids d (within ids p n valid m)
              (omega (arith, members-eq ids p n valid)),
        )
      ]
