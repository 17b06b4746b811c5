-- ===== src/Health/Streaks.antt =====
-- The state changes after exactly a run of equal results that reaches the threshold.
use master_dns.Common.{
  ℕ, zero, suc, ◌+◌, ◌-◌, ◌≤◌, ◌<◌, ◌≡◌, ap, ◌∙◌, ◌⊎◌, inl, inr, Bool, true, false, List, [], ◌∷◌,
  ◌++◌, arith, ok, replicate, HasRun, Bool-cases, leb, subst, sym,
}
use native.Mathlib.Nat.{sub-zero}
use master_dns.Health.{
  HealthState, healthy, unhealthy, recovering, HealthObservation, HealthThresholds, observe,
  apply_results,
}
use master_dns.Health.Invariant.{IsValid, apply_results-cons}

-- The states of an address that has been declared down and has not come back.
abbrev pub is_down : HealthState → Bool
is_down unhealthy = true
is_down recovering = true
is_down _ = false

-- A run of `k - c` at the front, or a whole run of `k` further on.
abbrev RunsOut : ℕ → ℕ → Bool → List Bool → Type 0
RunsOut k c r rs =
    ((c < k) × (rest : List Bool) × (rs ≡ replicate (k - c) r ++ rest)) ⊎ HasRun k r rs

HasRun-cons : (k : ℕ) (r x : Bool) (rs : List Bool) → HasRun k r rs → HasRun k r (x ∷ rs)
HasRun-cons k r x rs h = record {
  before = x ∷ h.before;
  after = h.after;
  split = ap (◌∷◌ x) h.split;
}

RunsOut-other : (k : ℕ) (r x : Bool) (rs : List Bool) → RunsOut k 0 r rs → HasRun k r (x ∷ rs)
RunsOut-other k r x rs (inl (lt, rest, e)) = record {
  before = x ∷ [];
  after = rest;
  split = ap (◌∷◌ x) (rw sub-zero at e);
}
RunsOut-other k r x rs (inr h) = HasRun-cons k r x rs h

RunsOut-same :
    (k c : ℕ) (r : Bool) (rs : List Bool) → RunsOut k (c + 1) r rs → RunsOut k c r (r ∷ rs)
RunsOut-same k c r rs (inl (lt, rest, e)) = inl (omega arith, rest, rw (eq, e))
  where
    eq : k - c ≡ suc (k - (c + 1))
    eq = omega arith
RunsOut-same k c r rs (inr h) = inr (HasRun-cons k r r rs h)

-- One more result of the kind completes a run of `k` after `c`.
RunsOut-last : (k c : ℕ) (r : Bool) (rs : List Bool) → c < k → k ≤ c + 1 → RunsOut k c r (r ∷ rs)
RunsOut-last k c r rs lt le = inl (lt, rs, rw eq)
  where
    eq : k - c ≡ 1
    eq = omega arith

RunsOut-whole : (k : ℕ) (r : Bool) (rs : List Bool) → RunsOut k 0 r rs → HasRun k r rs
RunsOut-whole k r rs (inl (lt, rest, e)) = record {
  before = [];
  after = rest;
  split = rw sub-zero at e;
}
RunsOut-whole k r rs (inr h) = h

module _ (t : HealthThresholds) (v : IsValid t) where
  down_needs_run :
      (o o' : HealthObservation) (rs : List Bool)
      → is_down o.state ≡ false
      → o.consecutive_failures < t.failure_threshold
      → apply_results o rs t ≡ ok o'
      → is_down o'.state ≡ true
      → RunsOut t.failure_threshold o.consecutive_failures false rs
  unfolding apply_results observe
  down_needs_run o o' [] u c e d = absurd (ground arith)
  down_needs_run o o' (true ∷ rs) u c e d = inr (
      RunsOut-other _ false true rs (
        down_needs_run (observe o true t) o' rs (still_up o u) v.0
          (sym (apply_results-cons t o true rs v) ∙ e) d))
    where
      still_up :
          (o : HealthObservation)
          → is_down o.state ≡ false
          → is_down (observe o true t).state ≡ false
      still_up o u = ground arith
  down_needs_run o o' (false ∷ rs) u c e d =
      elim (Bool-cases (leb t.failure_threshold (o.consecutive_failures + 1))) [
        | inl reached ↦ RunsOut-last _ _ false rs c (ground arith)
        | inr short ↦ RunsOut-same _ _ false rs (
            down_needs_run (observe o false t) o' rs (ground arith) (ground arith)
              (sym (apply_results-cons t o false rs v) ∙ e) d)
      ]

  up_needs_run :
      (o o' : HealthObservation) (rs : List Bool)
      → is_down o.state ≡ true
      → o.consecutive_successes < t.success_threshold
      → apply_results o rs t ≡ ok o'
      → is_down o'.state ≡ false
      → RunsOut t.success_threshold o.consecutive_successes true rs
  unfolding apply_results observe
  up_needs_run o o' [] d c e u = absurd (ground arith)
  up_needs_run o o' (false ∷ rs) d c e u = inr (
      RunsOut-other _ true false rs (
        up_needs_run (observe o false t) o' rs (ground arith) v.1
          (sym (apply_results-cons t o false rs v) ∙ e) u))
  up_needs_run o o' (true ∷ rs) d c e u =
      elim (Bool-cases (leb t.success_threshold (o.consecutive_successes + 1))) [
        | inl reached ↦ RunsOut-last _ _ true rs c (ground arith)
        | inr short ↦ RunsOut-same _ _ true rs (
            up_needs_run (observe o true t) o' rs (ground arith) (ground arith)
              (sym (apply_results-cons t o true rs v) ∙ e) u)
      ]

  -- An address that is up, with no failure counted, is declared down only if the results hold as
  -- many failures in a row as the failure threshold says.
  pub down_only_after_run :
      (o o' : HealthObservation) (rs : List Bool)
      → is_down o.state ≡ false
      → o.consecutive_failures ≡ 0
      → apply_results o rs t ≡ ok o'
      → is_down o'.state ≡ true
      → HasRun t.failure_threshold false rs
  down_only_after_run o o' rs u z e d = RunsOut-whole _ _ rs (
      subst (λ c. RunsOut t.failure_threshold c false rs) z
        (down_needs_run o o' rs u (omega arith) e d))

  -- An address that is down, with no success counted, comes back only if the results hold as many
  -- successes in a row as the success threshold says.
  pub up_only_after_run :
      (o o' : HealthObservation) (rs : List Bool)
      → is_down o.state ≡ true
      → o.consecutive_successes ≡ 0
      → apply_results o rs t ≡ ok o'
      → is_down o'.state ≡ false
      → HasRun t.success_threshold true rs
  up_only_after_run o o' rs d z e u = RunsOut-whole _ _ rs (
      subst (λ c. RunsOut t.success_threshold c true rs) z
        (up_needs_run o o' rs d (omega arith) e u))

  failures_settle :
      (n : ℕ) (o : HealthObservation)
      → t.failure_threshold ≤ o.consecutive_failures + suc n
      → (o' : HealthObservation) × (apply_results o (replicate (suc n) false) t ≡ ok o')
        × (o'.state ≡ unhealthy)
  unfolding apply_results observe
  failures_settle zero o le = (observe o false t, apply_results-cons t o false [] v, ground arith)
  failures_settle (suc n) o le =
      let (o', e, q) = failures_settle n (observe o false t) (omega arith) in
      (o', apply_results-cons t o false (replicate (suc n) false) v ∙ e, q)

  successes_settle :
      (n : ℕ) (o : HealthObservation)
      → t.success_threshold ≤ o.consecutive_successes + suc n
      → (o' : HealthObservation) × (apply_results o (replicate (suc n) true) t ≡ ok o')
        × (o'.state ≡ healthy)
  unfolding apply_results observe
  successes_settle zero o le = (observe o true t, apply_results-cons t o true [] v, ground arith)
  successes_settle (suc n) o le =
      let (o', e, q) = successes_settle n (observe o true t) (omega arith) in
      (o', apply_results-cons t o true (replicate (suc n) true) v ∙ e, q)

  -- From any observation, as many failures in a row as the failure threshold leave the address
  -- unhealthy, and as many successes in a row as the success threshold leave it healthy.
  pub runs_decide :
      (o : HealthObservation)
      → ((o' : HealthObservation) × (apply_results o (replicate t.failure_threshold false) t
            ≡ ok o')
          × (o'.state ≡ unhealthy))
        × ((o' : HealthObservation) × (apply_results o (replicate t.success_threshold true) t
              ≡ ok o')
            × (o'.state ≡ healthy))
  runs_decide o = (
    subst (Settles false unhealthy) {x = suc (t.failure_threshold - 1)} (omega (arith, v.0))
        (failures_settle (t.failure_threshold - 1) o (omega (arith, v.0))),
    subst (Settles true healthy) {x = suc (t.success_threshold - 1)} (omega (arith, v.1))
        (successes_settle (t.success_threshold - 1) o (omega (arith, v.1))),
  )
    where
      Settles : Bool → HealthState → ℕ → Type 0
      Settles r state n =
          (o' : HealthObservation) × (apply_results o (replicate n r) t ≡ ok o')
          × (o'.state ≡ state)
