-- ===== src/Limits/Rate.antt =====
-- How often an action with one token bucket is admitted, over any run of attempts.
use master_dns.Common.{
  ℕ, ◌+◌, ◌*◌, ◌-◌, ◌≤◌, ◌≡◌, refl, ap, ◌∙◌, ◌⊎◌, inl, inr, Bool, true, false, Option, none, some,
  String, List, [], ◌∷◌, sum, Result, err, ok, ◌>>=◌, throw_if, ◌&&◌, ltb, if◌then◌else◌, arith,
  Bool-cases, first_returns,
}
use master_dns.Limits.Rules.{
  LimitError, rotation_limit_too_low, Rule, token_bucket, write_units,
  cloud_rotation_rules_for_action,
}
use master_dns.Limits.Buckets.{Row, LiveState, live_state, find_row, units_per_ms}
use master_dns.Limits.Admission.{
  WriteInput, Circumstances, Store, Demand, Admission, allowed, denied, weigh_rules, state_of,
  rule_region, is_over, charge_rules, charge, added_debt, blank_row, is_window, is_exempt,
  required_writes, refuses, is_too_low, is_lightsail,
}
use master_dns.Limits.Keys.{find_row-upsert, has_key_refl}
use master_dns.Limits.Reserve.{
  running_cooldown, cooldown_of, find_cooldown, conclude, spend_writes, weigh_write, unless_cooling,
  reserve_cloud_rotation_write, new_reservations, demand_of,
}

-- The store after an attempt, and 1 where it was admitted.
abbrev pub settle : Store → Result LimitError (Store × Admission) → Store × ℕ
settle store (err e) = (store, 0)
settle store (ok (after, allowed)) = (after, 1)
settle store (ok (after, denied rule_id retry_at)) = (after, 0)

abbrev pub written_at : Option Row → ℕ
written_at none = 0
written_at (some row) = row.updated_at

module _ (floor_share : (capacity percent : ℕ) → ℕ) (c : Circumstances) (input : WriteInput) where
  abbrev pub attempt : Store → ℕ → Store × ℕ
  attempt store now = settle store (reserve_cloud_rotation_write floor_share c input store now)

  -- The attempts admitted of a run, each a number of milliseconds after the one before.
  abbrev pub run : List ℕ → Store → ℕ → ℕ
  run [] store now = 0
  run (gap ∷ gaps) store now =
      let result = attempt store (now + gap) in result.1 + run gaps result.0 (now + gap)

module _ (input : WriteInput) (rule : Rule) where
  abbrev pub level : Store → ℕ → ℕ
  level store now = (state_of rule input.region store.rows now).debt

  -- The rule's row is not from the future.
  abbrev pub IsPast : Store → ℕ → Type 0
  IsPast store now = written_at (find_row rule.id (rule_region rule input.region) store.rows) ≤ now

module _ (floor_share : (capacity percent : ℕ) → ℕ) (c : Circumstances) (input : WriteInput)
    (rule : Rule) (units : ℕ) (bucket : rule.kind ≡ token_bucket units)
    (alone : cloud_rotation_rules_for_action floor_share input.service input.action
        c.effective_percent
      ≡ ok (rule ∷ []))
    (enabled : c.enabled ≡ true) where
  abbrev spent : Store → ℕ → Demand → Store
  spent store now d = spend_writes input store now (rule ∷ []) d

  -- An attempt changes nothing, or the rule does not refuse it and is charged.
  abbrev AttemptResult : Store → ℕ → Store × ℕ → Type 0
  AttemptResult store now result =
      (result ≡ (store, 0))
      ⊎ ((d : Demand) × ((state_of rule input.region store.rows now).debt + write_units
            ≤ rule.capacity * write_units)
          × (result ≡ (spent store now d, 1)))

  is_window-false : is_window rule.kind ≡ false
  is_window-false = ap is_window bucket

  is_exempt-false : (d : Demand) → is_exempt rule d ≡ false
  is_exempt-false d = ground arith

  required-one : (d : Demand) → required_writes rule d ≡ 1
  required-one d = ground arith

  is_over-at :
      (state : LiveState) (waiting required : ℕ)
      → is_over rule.kind state rule.capacity waiting required
        ≡ ltb (rule.capacity * write_units) (state.debt + required * write_units)
  is_over-at state waiting required =
      ap (λ k. is_over k state rule.capacity waiting required) bucket

  refuses-at :
      (d : Demand) (state : LiveState)
      → refuses c.enabled rule d state
        ≡ ltb (rule.capacity * write_units) (state.debt + write_units)
  refuses-at d state = ground arith

  some-none :
      (refusal : String × ℕ) (test : Bool)
      → test ≡ true
      → (◌≡◌ {A = Result LimitError (Option (String × ℕ))}
          (ok (if test then some refusal else none))
          (ok none))
      → ⊥
  some-none refusal true t e = cc
  some-none refusal false t e = cc

  weighed-room :
      (d : Demand) (store : Store) (now : ℕ)
      → weigh_rules c.enabled d input.region store.rows now (rule ∷ []) none ≡ ok none
      → (state_of rule input.region store.rows now).debt + write_units ≤ rule.capacity * write_units
  unfolding weigh_rules
  weighed-room d store now e =
      let state = state_of rule input.region store.rows now in
      let (v, thrown, rest) =
        first_returns (throw_if (is_too_low c.enabled rule d) rotation_limit_too_low) _ e in
      elim (Bool-cases (ltb (rule.capacity * write_units) (state.debt + write_units))) [
        | inl over ↦ absurd (some-none _ _ (refuses-at d state ∙ over) rest)
        | inr room ↦ ground arith
      ]

  conclude-result :
      (store : Store) (now : ℕ) (d : Demand) (weighed : Result LimitError (Option (String × ℕ)))
      → (weighed ≡ ok none
          → (state_of rule input.region store.rows now).debt + write_units
            ≤ rule.capacity * write_units)
      → AttemptResult store now (
          settle store (weighed >>= λ refusal. ok (conclude input store now (rule ∷ []) d refusal)))
  unfolding conclude
  conclude-result store now d (err e) h = inl refl
  conclude-result store now d (ok (some r)) h = inl refl
  conclude-result store now d (ok none) h = inr (d, h refl, refl)

  then-result :
      {V : Type 0} (store : Store) (now : ℕ) (first : Result LimitError V)
      (next : V → Result LimitError (Store × Admission))
      → ((v : V) → first ≡ ok v → AttemptResult store now (settle store (next v)))
      → AttemptResult store now (settle store (first >>= next))
  then-result store now (err e) next h = inl refl
  then-result store now (ok v) next h = h v refl

  weigh_write-result :
      (store : Store) (now : ℕ)
      → AttemptResult store now (settle store (weigh_write floor_share c input store now))
  unfolding weigh_write
  weigh_write-result store now = rw alone (
      then-result store now (new_reservations floor_share input c) _ λ fresh e.
        conclude-result store now (demand_of input c store.reservations fresh) _
          (weighed-room (demand_of input c store.reservations fresh) store now))

  cooling-result :
      (store : Store) (now : ℕ) (until : Option ℕ)
      → AttemptResult store now
          (settle store (unless_cooling until store (weigh_write floor_share c input store now)))
  cooling-result store now none = weigh_write-result store now
  cooling-result store now (some until) = inl refl

  idle-result :
      (store : Store) (now : ℕ) (busy : Bool) (rest : Result LimitError (Store × Admission))
      → AttemptResult store now (settle store rest)
      → AttemptResult store now
          (settle store (if busy then ok (store, denied "idle_ip_cleanup" (now + 5000)) else rest))
  idle-result store now true rest h = inl refl
  idle-result store now false rest h = h

  attempt-result :
      (store : Store) (now : ℕ) → AttemptResult store now (attempt floor_share c input store now)
  unfolding reserve_cloud_rotation_write
  attempt-result store now =
      then-result store now
        (cloud_rotation_rules_for_action floor_share input.service input.action 80) _
        λ rules e.
          idle-result store now (is_lightsail input.service && c.idle_ip_release) _ (
            cooling-result store now
              (running_cooldown (cooldown_of (find_cooldown store.rows)) now))

  elapsed_split :
      (row : Row) (now gap : ℕ)
      → row.updated_at ≤ now
      → now + gap - row.updated_at ≡ (now - row.updated_at) + gap
  elapsed_split row now gap h = omega arith

  row_decay :
      (row : Option Row) (now gap : ℕ)
      → written_at row ≤ now
      → ((live_state rule row now).debt ≤ (live_state rule row (now + gap)).debt + gap * units)
        × ((live_state rule row (now + gap)).debt ≤ (live_state rule row now).debt)
  unfolding live_state
  row_decay none now gap h = (omega arith, omega arith)
  row_decay (some row) now gap h =
      let speed = ap units_per_ms bucket in
      (
        rw (speed, elapsed_split row now gap h) (omega arith),
        rw (speed, elapsed_split row now gap h) (omega arith),
      )

  level_decay :
      (store : Store) (now gap : ℕ)
      → IsPast input rule store now
      → (level input rule store now ≤ level input rule store (now + gap) + gap * units)
        × (level input rule store (now + gap) ≤ level input rule store now)
  level_decay store now gap past =
      row_decay (find_row rule.id (rule_region rule input.region) store.rows) now gap past

  no_time : (now speed : ℕ) → (now - now) * speed ≡ 0
  no_time now speed = grind arith

  pub level-spent :
      (store : Store) (now : ℕ) (d : Demand)
      → (level input rule (spent store now d) now ≡ level input rule store now + write_units)
        × IsPast input rule (spent store now d) now
  unfolding charge_rules live_state
  level-spent store now d =
      let reg = rule_region rule input.region in
      let state = state_of rule input.region store.rows now in
      let (row, there, (amount, time)) =
        find_row-upsert (λ row. (row.debt ≡ added_debt rule.kind state) × (row.updated_at ≡ now))
          (charge rule reg state now (blank_row rule.id reg)) (charge rule reg state now)
          (λ row. has_key_refl rule.id reg) (refl, refl) (λ row. (refl, refl)) store.rows in
      (
        rw (there, time, amount, ap (λ k. added_debt k state) bucket)
            (omega (arith, no_time now (units_per_ms rule.kind))),
        rw (there, time) (omega arith),
      )

  -- Over a run of attempts for an action whose only rule is a token bucket, on an account with its
  -- limits enabled, the writes that are admitted and the debt before the run are within the
  -- bucket's capacity and what refills from the start to the last attempt. The run starts within
  -- the capacity and not before the bucket's row was written.
  pub run_bound :
      (gaps : List ℕ) (store : Store) (now : ℕ)
      → IsPast input rule store now
      → level input rule store now ≤ rule.capacity * write_units
      → run floor_share c input gaps store now * write_units + level input rule store now
        ≤ rule.capacity * write_units + sum gaps * units
  run_bound [] store now past room = omega arith
  run_bound (gap ∷ gaps) store now past room = elim (attempt-result store (now + gap)) [
    | inl e ↦
        let (slow, fast) = level_decay store now gap past in
        let rest = run_bound gaps store (now + gap) (omega arith) (omega arith) in
        rw e (grind arith)
    | inr (d, h, e) ↦
        let (slow, fast) = level_decay store now gap past in
        let (now_at, now_past) = level-spent store (now + gap) d in
        let rest = run_bound gaps (spent store (now + gap) d) (now + gap) now_past (omega arith) in
        rw e (grind arith)
  ]
