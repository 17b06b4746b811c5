-- ===== src/Health/Examples.antt =====
-- Runs of the health state on concrete results, and instances of the theorems about it.
use master_dns.Common.{◌≡◌, refl, List, [], ◌∷◌}
use master_dns.Common.{Bool, true, false, ok, err, HasRun, arith}
use master_dns.Health.Invariant.{IsConsistent, apply_results-IsConsistent}
use master_dns.Health.Streaks.{down_only_after_run, up_only_after_run, runs_decide}
use master_dns.Health.{
  healthy, unhealthy, HealthObservation, HealthThresholds, bad_success_threshold,
  apply_health_result, apply_results, validate_thresholds, observe,
}

abbrev thresholds : HealthThresholds
thresholds = record { failure_threshold = 3; success_threshold = 2 }

abbrev fresh : HealthObservation
fresh = record { state = healthy; consecutive_successes = 4; consecutive_failures = 0 }

abbrev fallen : HealthObservation
fallen = record { state = unhealthy; consecutive_successes = 0; consecutive_failures = 3 }

abbrev bumpy : List Bool
bumpy = false ∷ true ∷ false ∷ false ∷ false ∷ []

bumpy_falls : apply_results fresh bumpy thresholds ≡ ok fallen
unfolding apply_results apply_health_result validate_thresholds observe
bumpy_falls = refl

zero_threshold_throws :
    apply_health_result fresh true (record { failure_threshold = 1; success_threshold = 0 })
    ≡ err bad_success_threshold
unfolding apply_health_result validate_thresholds
zero_threshold_throws = refl

apply_results-IsConsistent_example :
    (o' : HealthObservation) × (apply_results fresh bumpy thresholds ≡ ok o')
    × IsConsistent thresholds o'
apply_results-IsConsistent_example =
    apply_results-IsConsistent thresholds fresh bumpy (omega arith) (omega arith)

down_only_after_run_example : HasRun 3 false bumpy
down_only_after_run_example =
    down_only_after_run thresholds (omega arith) fresh fallen bumpy refl refl bumpy_falls refl

mended :
    apply_results fallen (true ∷ false ∷ true ∷ true ∷ []) thresholds
    ≡ ok (record { state = healthy; consecutive_successes = 2; consecutive_failures = 0 })
unfolding apply_results apply_health_result validate_thresholds observe
mended = refl

up_only_after_run_example : HasRun 2 true (true ∷ false ∷ true ∷ true ∷ [])
up_only_after_run_example =
    up_only_after_run thresholds (omega arith) fallen _ (true ∷ false ∷ true ∷ true ∷ []) refl refl
      mended refl

runs_decide_example :
    ((o' : HealthObservation) × (apply_results fresh (false ∷ false ∷ false ∷ []) thresholds
        ≡ ok o')
      × (o'.state ≡ unhealthy))
    × ((o' : HealthObservation) × (apply_results fresh (true ∷ true ∷ []) thresholds ≡ ok o')
        × (o'.state ≡ healthy))
runs_decide_example = runs_decide thresholds (omega arith) fresh
