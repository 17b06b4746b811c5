-- ===== src/Consensus/Votes.antt =====
-- The decision by votes against a description of a quorum that names no threshold.
use master_dns.Common.{
  ◌/◌, if◌then◌else◌, leb, ℕ, ◌+◌, ◌-◌, ◌*◌, ◌≤◌, ◌<◌, ◌≡◌, refl, ◌≢◌, ◌↔◌, inl, inr, Bool, Option,
  none, some, List, [], ◌∷◌, String, arith, length, ok, ltb, Option-cases, Result,
}
use master_dns.Consensus.{
  ConsensusError, ConsensusMode, any, majority, all, at_least, specified, ConsensusPolicy, Outcomes,
  is_success, is_failure, is_valid, RoundDecision, validate_consensus_input, required_failure_votes,
  count_votes, tally, evaluate_probe_round, check_mode, votes_of,
}

-- The votes for failure that decide against the address, among `members` probes.
abbrev pub IsQuorum : ConsensusMode → Option ℕ → (members failures : ℕ) → Type 0
IsQuorum any votes n failures = 0 < failures
IsQuorum majority votes n failures = n < 2 * failures
IsQuorum all votes n failures = n ≤ failures
IsQuorum at_least votes n failures = (k : ℕ) × (votes ≡ some k) × (k ≤ failures)
IsQuorum specified votes n failures = ⊥

pub tally-add :
    (o : Outcomes) (ids : List String)
    → tally is_success o ids + tally is_failure o ids ≡ tally is_valid o ids
unfolding tally
tally-add o [] = omega arith
tally-add o (id ∷ ids) = ground (arith, tally-add o ids)

pub tally-le :
    (test : Option _ → Bool) (o : Outcomes) (ids : List String) → tally test o ids ≤ length ids
unfolding tally
tally-le test o [] = omega arith
tally-le test o (id ∷ ids) = ground (arith, tally-le test o ids)

-- What the check of the mode leaves for the votes.
checked_votes :
    (p : ConsensusPolicy) (mode : ConsensusMode) (ids : List String) (n : ℕ)
    → 0 < n
    → check_mode p mode ids n ≡ ok n
    → mode ≢ specified
    → (v : ℕ) × (votes_of mode p.failure_votes n ≡ ok v) × (0 < v) × (v ≤ n)
checked_votes p any ids n pos c m = (1, refl, omega arith, pos)
checked_votes p majority ids n pos c m = (n / 2 + 1, refl, omega arith, omega arith)
checked_votes p all ids n pos c m = (n, refl, pos, omega arith)
checked_votes p at_least ids n pos c m = elim (Option-cases p.failure_votes) [
  | inl e ↦ absurd (ground arith)
  | inr (v, e) ↦ (v, rw e, ground arith, ground arith)
]
checked_votes p specified ids n pos c m = absurd (m refl)

-- A quorum is a number of failures that reaches the required votes.
IsQuorum-iff :
    (mode : ConsensusMode) (votes : Option ℕ) (n v f : ℕ)
    → votes_of mode votes n ≡ ok v
    → v ≤ n
    → f ≤ n
    → IsQuorum mode votes n f ↔ (v ≤ f)
IsQuorum-iff any votes n v f e le fn = ground arith
IsQuorum-iff majority votes n v f e le fn = (λ q. ground arith, λ q. ground arith)
IsQuorum-iff all votes n v f e le fn = ground arith
IsQuorum-iff at_least none n v f e le fn = cc
IsQuorum-iff at_least (some k) n v f e le fn = (λ q. ground arith, λ q. (k, refl, ground arith))
IsQuorum-iff specified votes n v f e le fn = cc

-- The decision by counts alone.
abbrev decided : (valid minimum n v f s : ℕ) → Result ConsensusError RoundDecision
decided valid minimum n v f s = ok (
    if ltb valid minimum
    then RoundDecision.unknown
    else if leb v f
    then RoundDecision.failure
    else if ltb (n - v) s
    then RoundDecision.success
    else RoundDecision.unknown)

decided_failure :
    (valid minimum n v f s : ℕ)
    → (decided valid minimum n v f s ≡ ok RoundDecision.failure) ↔ ((minimum ≤ valid) × (v ≤ f))
decided_failure valid minimum n v f s = (λ e. ground arith, λ h. ground arith)

decided_success :
    (valid minimum n v f s : ℕ)
    → v ≤ n
    → f + s ≤ n
    → (decided valid minimum n v f s ≡ ok RoundDecision.success)
      ↔ ((minimum ≤ valid) × (¬ (v ≤ n - s)))
decided_success valid minimum n v f s le sum = (λ e. ground arith, λ h. ground arith)

module _ (ids : List String) (p : ConsensusPolicy) (n : ℕ)
    (valid : validate_consensus_input ids p ≡ ok n) where
  pub members-eq : (n ≡ length ids) × (0 < n)
  unfolding validate_consensus_input
  members-eq = ground arith

  checked_mode : check_mode p p.mode ids n ≡ ok n
  unfolding validate_consensus_input
  checked_mode = ground arith

  pub votes-within :
      p.mode ≢ specified → (v : ℕ) × (required_failure_votes p n ≡ ok v) × (0 < v) × (v ≤ n)
  unfolding required_failure_votes
  votes-within m = checked_votes p p.mode ids n members-eq.1 checked_mode m

  votes_of_required :
      (v : ℕ) → required_failure_votes p n ≡ ok v → votes_of p.mode p.failure_votes n ≡ ok v
  unfolding required_failure_votes
  votes_of_required v e = e

  -- By votes, the round is decided as the votes say once enough outcomes are valid.
  pub evaluate-votes :
      (o : Outcomes)
      → p.mode ≢ specified
      → (v : ℕ) × (v ≤ n)
        × (required_failure_votes p n ≡ ok v)
        × (evaluate_probe_round ids o p
            ≡ ok (
                if ltb (tally is_valid o ids) p.minimum_valid
                then RoundDecision.unknown
                else if leb v (tally is_failure o ids)
                then RoundDecision.failure
                else if ltb (n - v) (tally is_success o ids)
                then RoundDecision.success
                else RoundDecision.unknown))
  unfolding evaluate_probe_round count_votes
  evaluate-votes o m = let (v, e, pos, le) = votes-within m in (v, le, e, ground arith)

  -- With valid input and a mode other than `specified`, the round fails exactly when enough
  -- outcomes are valid and the failures make a quorum; it succeeds exactly when enough are valid
  -- and the members that did not succeed could make no quorum even if all of them failed.
  pub evaluate_probe_round-IsQuorum :
      (o : Outcomes)
      → p.mode ≢ specified
      → ((evaluate_probe_round ids o p ≡ ok RoundDecision.failure) ↔ (
          (p.minimum_valid ≤ tally is_valid o ids)
          × IsQuorum p.mode p.failure_votes n (tally is_failure o ids)))
        × ((evaluate_probe_round ids o p ≡ ok RoundDecision.success) ↔ (
            (p.minimum_valid ≤ tally is_valid o ids)
            × (¬ IsQuorum p.mode p.failure_votes n (n - tally is_success o ids))))
  evaluate_probe_round-IsQuorum o m =
      let (v, le, req, ev) = evaluate-votes o m in
      let at_failures =
        IsQuorum-iff p.mode p.failure_votes n v (tally is_failure o ids) (votes_of_required v req)
          le (omega (arith, tally-le is_failure o ids, members-eq)) in
      let at_rest =
        IsQuorum-iff p.mode p.failure_votes n v (n - tally is_success o ids)
          (votes_of_required v req) le (omega arith) in
      let fail =
        decided_failure (tally is_valid o ids) p.minimum_valid n v (tally is_failure o ids)
          (tally is_success o ids) in
      let succeed =
        decided_success (tally is_valid o ids) p.minimum_valid n v (tally is_failure o ids)
          (tally is_success o ids) le
          (omega (arith, tally-add o ids, tally-le is_valid o ids, members-eq)) in
      rw ev (
        (λ e. ((fail.0 e).0, at_failures.1 (fail.0 e).1), λ h. fail.1 (h.0, at_failures.0 h.1)),
        (
          λ e. ((succeed.0 e).0, λ q. (succeed.0 e).1 (at_rest.0 q)),
          λ h. succeed.1 (h.0, λ le'. h.1 (at_rest.1 le')),
        ),
      )
