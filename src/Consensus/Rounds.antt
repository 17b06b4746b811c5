-- ===== src/Consensus/Rounds.antt =====
-- A round counts once for the health of an address.
use master_dns.Common.{
  none, some, true, false, inl, inr, ◌≡◌, refl, String, ok, true, arith, false, some, Bool-cases,
  Option, ap,
}
use master_dns.Health.{HealthObservation, observe}
use master_dns.Health.Invariant.{
  IsValid, IsConsistent, observe-IsConsistent, apply_health_result-observe, validate_thresholds-ok,
}
use master_dns.Consensus.{
  RoundDecision, RoundHealthObservation, advance_round_health, HealthThresholds, str_eq,
  apply_decision, seen,
}
use master_dns.Common.Text.{str_eq_iff}

str_eq_self : (a : String) → str_eq a a ≡ true
str_eq_self a = (str_eq_iff a a).1 refl

-- A decision that is delivered again for the round that was last recorded changes nothing,
-- whatever the second delivery says.
pub advance_round_health_idem :
    (o o' : RoundHealthObservation) (id : String) (d d' : RoundDecision) (t : HealthThresholds)
    → advance_round_health o id d t ≡ ok o'
    → advance_round_health o' id d' t ≡ ok o'
unfolding advance_round_health
advance_round_health_idem o o' id d d' t e = ground (arith, str_eq_self id)

apply_decision-IsConsistent :
    (o : HealthObservation) (d : RoundDecision) (t : HealthThresholds)
    → IsValid t
    → IsConsistent t o
    → (o' : HealthObservation) × (apply_decision o d t ≡ ok o')
      × IsConsistent t o'
      × ((d ≡ RoundDecision.unknown) → (o'.state ≡ o.state))
apply_decision-IsConsistent o RoundDecision.success t v c = (
  observe o true t,
  apply_health_result-observe t o true v,
  observe-IsConsistent t o true v c,
  λ e. cc,
)
apply_decision-IsConsistent o RoundDecision.failure t v c = (
  observe o false t,
  apply_health_result-observe t o false v,
  observe-IsConsistent t o false v c,
  λ e. cc,
)
apply_decision-IsConsistent o RoundDecision.unknown t v c = (
  record o { consecutive_successes = 0; consecutive_failures = 0 },
  refl,
  ground arith,
  λ _. refl,
)

seen-eq : (last : Option String) (id : String) → seen last id ≡ true → last ≡ some id
seen-eq none id h = cc
seen-eq (some last) id h = ap some ((str_eq_iff last id).0 h)

-- With positive thresholds and a round that has an id, the round is recorded, the observation stays
-- consistent, and a round without a decision leaves the state as it was.
pub advance_round_health-IsConsistent :
    (o : RoundHealthObservation) (id : String) (d : RoundDecision) (t : HealthThresholds)
    → IsValid t
    → IsConsistent t o.health
    → str_eq id "" ≡ false
    → (o' : RoundHealthObservation) × (advance_round_health o id d t ≡ ok o')
      × (o'.last_round_id ≡ some id)
      × IsConsistent t o'.health
      × ((d ≡ RoundDecision.unknown) → (o'.state ≡ o.state))
unfolding advance_round_health
advance_round_health-IsConsistent o id d t v c ne = elim (Bool-cases (seen o.last_round_id id)) [
  | inl again ↦ (o, ground arith, seen-eq o.last_round_id id again, c, λ _. refl)
  | inr new ↦
      let (h, e, c', same) = apply_decision-IsConsistent o.health d t v c in
      (
        record { health = h; last_round_id = some id },
        ground (arith, validate_thresholds-ok t v),
        refl,
        c',
        same,
      )
]
