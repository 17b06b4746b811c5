-- ===== src/Strategy/Decisions.antt =====
-- Every decision of the loop points to an endpoint that its binding may use.
use mathlib.Core.List.{Memᴰ}
use Prim.Native.Nat.{Ordering}
use master_dns.Common.{
  ◌-◌, ◌≡◌, ◌≢◌, ◌⊎◌, refl, ap, inl, inr, Option, none, some, List, [], ◌∷◌, String, Bool-cases,
  Option-cases, All, All-append, find, find-All, ◌&&◌, ◌∙◌, not, map,
}
use master_dns.Strategy.Types.{
  StrategyEndpoint, StrategyBinding, StrategyContext, BindingDecision, Reason, Cursors,
}
use master_dns.Strategy.Evaluate.{
  LoopState, usable, choose, keep, move, settle, reassign, step, run, start, find_current,
  find_original, recover_original, is_repair, current_healthy, decision_for, should_select,
  is_configuration, is_only,
}
use master_dns.Strategy.Keeping.{
  originals, bare, originals-update_count, originals-update_ids, originals-number_from, none_usable,
  chosen_none,
}
use master_dns.Strategy.Copies.{Working, update_ids}
use master_dns.Strategy.Usable.{
  IsUsable, StandsFor, healthy_for_binding-All, number_from-StandsFor, update_ids-StandsFor,
  healthy_for_binding-IsUsable, update_count-StandsFor, IsUsable-original,
}
use master_dns.Common.Text.{str_eq}
use master_dns.Strategy.Selection.{select_endpoint-All}
use master_dns.Strategy.Sorting.{All-mem}
use master_dns.Strategy.{evaluate_strategy, healthy_set, PoolStrategy, evaluate_by}

-- The decision keeps a binding's current endpoints where it may use none of the pool, or points it
-- from these to one endpoint of the pool that it may use.
abbrev pub IsSound : StrategyContext → BindingDecision → Type 0
IsSound ctx d =
    ((b : StrategyBinding) × Memᴰ b ctx.bindings
      × (d.binding_id ≡ b.id)
      × (d.previous_endpoint_ids ≡ b.current_endpoint_ids)
      × (d.desired_endpoint_ids ≡ b.current_endpoint_ids)
      × (d.reason ≡ Reason.no_healthy_endpoint)
      × All (λ e. ¬ (IsUsable b e)) ctx.endpoints)
    ⊎ ((b : StrategyBinding) × (e : StrategyEndpoint) × Memᴰ b ctx.bindings
        × Memᴰ e ctx.endpoints
        × (d.binding_id ≡ b.id)
        × (d.previous_endpoint_ids ≡ b.current_endpoint_ids)
        × (d.desired_endpoint_ids ≡ e.id ∷ [])
        × IsUsable b e)

find_current-All {κ} :
    (P : Working → Type κ) (ids : List String) (us : List Working) {w : Working}
    → All P us
    → find_current ids us ≡ some w
    → P w
unfolding find_current
find_current-All P [] us h e = cc
find_current-All P (id ∷ ids) us h e =
    elim (Option-cases (find (λ w. str_eq w.endpoint.id id) us)) [
      | inl f ↦ find_current-All P ids us h (rw f at e)
      | inr (x, f) ↦ find-All P _ us h (f ∙ rw f at e)
    ]

find_original-All {κ} :
    (P : Working → Type κ) (id : Option String) (us : List Working) {w : Working}
    → All P us
    → find_original id us ≡ some w
    → P w
find_original-All P none us h e = cc
find_original-All P (some id) us h e = find-All P _ us h e

module _ (locale_compare : String → String → Ordering) (ctx : StrategyContext) where
  choose-All {κ} :
      (P : Working → Type κ) (b : StrategyBinding) (cursors : Cursors)
      (before released : List Working) {w : Working}
      → All P (usable b released)
      → choose locale_compare ctx b cursors before released ≡ some w
      → P w
  unfolding choose
  choose-All P b cursors before released {w} h e =
      elim (Bool-cases (recover_original ctx b (usable b before))) [
        | inl r ↦ find_original-All P b.original_endpoint_id (usable b released) h (rw r at e)
        | inr r ↦ elim (Bool-cases (is_repair ctx.trigger && current_healthy b (usable b before))) [
          | inl k ↦
              find_current-All P b.current_endpoint_ids (usable b released) h (rw k at (rw r at e))
          | inr k ↦
              select_endpoint-All locale_compare (λ w. w.endpoint) P (usable b released) _ _ b _ w h
                (rw k at (rw r at e))
        ]
      ]

  decision_for-IsSound :
      (b : StrategyBinding) (before : List Working) (w : Working)
      → Memᴰ b ctx.bindings
      → StandsFor ctx.endpoints w
      → IsUsable b w.endpoint
      → All (IsSound ctx) (decision_for ctx b before w)
  decision_for-IsSound b before w m h u =
      elim (Bool-cases (
        not (is_repair ctx.trigger)
        && not (is_configuration ctx.trigger)
        && is_only b.current_endpoint_ids w.endpoint.id)) [
          | inl same ↦ rw same tt
          | inr moved ↦ rw moved (
            inr (
              b,
              h.original,
              m,
              h.in_pool,
              refl,
              refl,
              ap (λ e. e.id ∷ []) h.same,
              IsUsable-original ctx.endpoints b w h u,
            ),
            tt,
          )
        ]

-- The copies stand for the pool, and the decisions so far are sound.
pub record LoopInv (ctx : StrategyContext) (st : LoopState) : Type 0 where
  pub copies : All (StandsFor ctx.endpoints) st.working
  pub pool : originals st.working ≡ map bare ctx.endpoints
  pub sound : All (IsSound ctx) st.decisions

module _ (locale_compare : String → String → Ordering) (ctx : StrategyContext) where
  settle-LoopInv :
      (st : LoopState) (b : StrategyBinding) (released : List Working) (chosen : Option Working)
      → Memᴰ b ctx.bindings
      → LoopInv ctx st
      → All (StandsFor ctx.endpoints) released
      → originals released ≡ originals st.working
      → ((w : Working) → chosen ≡ some w → StandsFor ctx.endpoints w × IsUsable b w.endpoint)
      → (chosen ≡ none → usable b released ≡ [])
      → LoopInv ctx (settle ctx st b released chosen)
  unfolding keep move
  settle-LoopInv st b released none m inv h same ok_choice no_choice = record {
    copies = update_ids-StandsFor ctx.endpoints _ b.current_endpoint_ids released h;
    pool = originals-update_ids _ b.current_endpoint_ids released ∙ same ∙ inv.pool;
    sound = All-append (IsSound ctx) st.decisions _ inv.sound (
      inl (
        b,
        m,
        refl,
        refl,
        refl,
        refl,
        none_usable b ctx.endpoints released (same ∙ inv.pool) (no_choice refl),
      ),
      tt,
    );
  }
  settle-LoopInv st b released (some w) m inv h same ok_choice no_choice =
      let (stands, can_use) = ok_choice w refl in
      record {
        copies = update_count-StandsFor ctx.endpoints _ w.slot released h;
        pool = originals-update_count _ w.slot released ∙ same ∙ inv.pool;
        sound =
            All-append (IsSound ctx) st.decisions _ inv.sound
              (decision_for-IsSound locale_compare ctx b st.working w m stands can_use);
      }

  choice_fits :
      (st : LoopState) (b : StrategyBinding) (released : List Working)
      → All (StandsFor ctx.endpoints) released
      → (w : Working) → choose locale_compare ctx b st.cursors st.working released ≡ some w
      → StandsFor ctx.endpoints w × IsUsable b w.endpoint
  unfolding usable
  choice_fits st b released h w e = (
    choose-All locale_compare ctx (StandsFor ctx.endpoints) b st.cursors st.working released
        (healthy_for_binding-All _ b _ released h) e,
    choose-All locale_compare ctx (λ w. IsUsable b w.endpoint) b st.cursors st.working released
        (healthy_for_binding-IsUsable (λ w. w.endpoint) b released) e,
  )

  step-LoopInv :
      (st : LoopState) (b : StrategyBinding)
      → Memᴰ b ctx.bindings
      → LoopInv ctx st
      → LoopInv ctx (step locale_compare ctx st b)
  unfolding step reassign
  step-LoopInv st b m inv = elim (Bool-cases (should_select ctx b (usable b st.working))) [
    | inl moves ↦
        let released = update_ids (λ n. n - 1) b.current_endpoint_ids st.working in
        let h =
          update_ids-StandsFor ctx.endpoints (λ n. n - 1) b.current_endpoint_ids st.working
            inv.copies in
        let same = originals-update_ids (λ n. n - 1) b.current_endpoint_ids st.working in
        rw moves (
          settle-LoopInv st b released (choose locale_compare ctx b st.cursors st.working released)
            m inv h same (choice_fits st b released h)
            (chosen_none locale_compare ctx b st.cursors st.working released same))
    | inr stays ↦ rw stays inv
  ]

  run-LoopInv :
      (st : LoopState) (bs : List StrategyBinding)
      → All (λ b. Memᴰ b ctx.bindings) bs
      → LoopInv ctx st
      → LoopInv ctx (run locale_compare ctx st bs)
  unfolding run
  run-LoopInv st [] m inv = inv
  run-LoopInv st (b ∷ bs) (p, m) inv =
      run-LoopInv (step locale_compare ctx st b) bs m (step-LoopInv st b p inv)

  start-LoopInv : LoopInv ctx (start ctx)
  unfolding start
  start-LoopInv = record {
    copies = number_from-StandsFor ctx.endpoints 0 ctx.endpoints (All-mem ctx.endpoints);
    pool = originals-number_from 0 ctx.endpoints;
    sound = tt;
  }

  -- For a pool that assigns endpoints, every decision of an evaluation is about one of the bindings
  -- given and names its current endpoints as the previous ones. Either no endpoint of the pool is
  -- enabled, healthy or degraded as the binding sees it, and of the address family that the binding
  -- requires, and these endpoints are kept; or the binding is moved to one endpoint of the pool that
  -- fits it in these ways.
  pub evaluate_strategy-IsSound :
      ctx.strategy ≢ healthy_set
      → All (IsSound ctx) (evaluate_strategy locale_compare ctx).decisions
  unfolding evaluate_strategy
  evaluate_strategy-IsSound other = by_strategy ctx.strategy other
    where
      by_strategy :
          (strategy : PoolStrategy)
          → strategy ≢ healthy_set
          → All (IsSound ctx) (evaluate_by locale_compare strategy ctx).decisions
      by_strategy healthy_set ne = absurd (ne refl)
      by_strategy strategy ne =
          (run-LoopInv (start ctx) ctx.bindings (All-mem ctx.bindings) start-LoopInv).sound
