-- ===== src/Health/Invariant.antt =====
-- What holds of an observation between two check results.
use master_dns.Common.{
  ℕ, ◌≤◌, ◌<◌, ◌≡◌, refl, ◌↔◌, Bool, true, false, List, [], ◌∷◌, arith, ok, ◌>>=◌, ◌*◌, ◌∙◌,
}
use master_dns.Health.{
  HealthState, unknown, healthy, degraded, unhealthy, recovering, HealthObservation,
  HealthThresholds, validate_thresholds, observe, apply_health_result, apply_results,
}

-- Both thresholds are positive.
abbrev pub IsValid : HealthThresholds → Type 0
IsValid t = (1 ≤ t.failure_threshold) × (1 ≤ t.success_threshold)

-- The counters that each state allows, below the thresholds where the state has yet to change.
abbrev pub CountsFit : HealthThresholds → HealthState → ℕ → ℕ → Type 0
CountsFit t unknown successes failures =
    (successes < t.success_threshold) × (failures < t.failure_threshold)
CountsFit t healthy successes failures = failures ≡ 0
CountsFit t degraded successes failures =
    (successes < t.success_threshold) × (failures < t.failure_threshold)
CountsFit t unhealthy successes failures = successes ≡ 0
CountsFit t recovering successes failures = (successes < t.success_threshold) × (failures ≡ 0)

pub record IsConsistent (t : HealthThresholds) (o : HealthObservation) : Type 0 where
  pub one_streak : o.consecutive_successes * o.consecutive_failures ≡ 0
  pub counts_fit : CountsFit t o.state o.consecutive_successes o.consecutive_failures

pub observe-IsConsistent :
    (t : HealthThresholds) (o : HealthObservation) (success : Bool)
    → IsValid t
    → IsConsistent t o
    → IsConsistent t (observe o success t)
unfolding observe
observe-IsConsistent t o true v c = ground arith
observe-IsConsistent t o false v c = ground arith

pub apply_health_result-observe :
    (t : HealthThresholds) (o : HealthObservation) (success : Bool)
    → IsValid t
    → apply_health_result o success t ≡ ok (observe o success t)
unfolding apply_health_result validate_thresholds
apply_health_result-observe t o success v = ground arith

pub validate_thresholds-ok : (t : HealthThresholds) → IsValid t → validate_thresholds t ≡ ok tt
unfolding validate_thresholds
validate_thresholds-ok t v = ground arith

pub apply_results-cons :
    (t : HealthThresholds) (o : HealthObservation) (success : Bool) (rs : List Bool)
    → IsValid t
    → apply_results o (success ∷ rs) t ≡ apply_results (observe o success t) rs t
unfolding apply_results
apply_results-cons t o success rs v = rw (apply_health_result-observe t o success v, ◌>>=◌)

-- A result is recorded exactly when both thresholds are positive; else the call throws.
pub apply_health_result-ok_iff :
    (t : HealthThresholds) (o : HealthObservation) (success : Bool)
    → ((o' : HealthObservation) × (apply_health_result o success t ≡ ok o')) ↔ IsValid t
unfolding apply_health_result validate_thresholds
apply_health_result-ok_iff t o success =
    (λ h. ground arith, λ v. (observe o success t, apply_health_result-observe t o success v))

-- With positive thresholds every sequence of check results is recorded, and the observation stays
-- consistent: one streak at a time is counted, and in each state the counters are below the
-- thresholds that would have changed the state.
pub apply_results-IsConsistent :
    (t : HealthThresholds) (o : HealthObservation) (rs : List Bool)
    → IsValid t
    → IsConsistent t o
    → (o' : HealthObservation) × (apply_results o rs t ≡ ok o') × IsConsistent t o'
unfolding apply_results
apply_results-IsConsistent t o [] v c = (o, refl, c)
apply_results-IsConsistent t o (r ∷ rs) v c =
    let (o', e, c') =
      apply_results-IsConsistent t (observe o r t) rs v (observe-IsConsistent t o r v c) in
    (o', apply_results-cons t o r rs v ∙ e, c')
