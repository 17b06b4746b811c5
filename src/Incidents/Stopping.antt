-- ===== src/Incidents/Stopping.antt =====
-- What a termination leaves of the operations that belong to the incident, and of their steps.
use master_dns.Common.{
  ◌≡◌, refl, sym, ap, ◌∙◌, subst, ◌⊎◌, inl, inr, ℕ, Bool, true, false, ◌&&◌, List, [], ◌∷◌, String,
  All, update_where, Bool-cases, arith,
}
use mathlib.Core.List.{Memᴰ}
use master_dns.Incidents.Cancelling.{BelongsTo, cancelled-BelongsTo}
use master_dns.Common.Text.{includes}
use master_dns.Operations.Types.{OperationStatus}
use master_dns.Incidents.Types.{RotationIncident, Tables}
use master_dns.Incidents.Terminating.{
  PublicationChild, OperationRow, OperationStepRow, is_skippable, skip, Effects, is_cancellable,
  cancelled_operations, supersede, cancel_effects,
}

module _ {A : Type 0} (P : A → Type 0) (q : A → Bool) (f : A → A) where
  All-update_where :
      (xs : List A)
      → ((x : A) → q x ≡ true → P (f x))
      → ((x : A) → q x ≡ false → P x)
      → All P (update_where q f xs)
  All-update_where [] on_chosen on_others = tt
  All-update_where (x ∷ xs) on_chosen on_others = elim (Bool-cases (q x)) [
    | inl e ↦ rw e (on_chosen x e, All-update_where xs on_chosen on_others)
    | inr e ↦ rw e (on_others x e, All-update_where xs on_chosen on_others)
  ]

-- An operation that is not the incident's, or that has ended: a worker no longer takes it up.
abbrev IsStopped : List String → OperationRow → Type 0
IsStopped cancelled o =
    (includes cancelled o.id ≡ false)
    ⊎ (o.status ≡ OperationStatus.succeeded)
    ⊎ (o.status ≡ OperationStatus.superseded)

not_cancellable :
    (status : OperationStatus)
    → is_cancellable status ≡ false
    → (status ≡ OperationStatus.succeeded) ⊎ (status ≡ OperationStatus.superseded)
not_cancellable OperationStatus.succeeded h = inl refl
not_cancellable OperationStatus.superseded h = inr refl
not_cancellable OperationStatus.pending h = cc
not_cancellable OperationStatus.running h = cc
not_cancellable OperationStatus.partial h = cc
not_cancellable OperationStatus.failed h = cc

-- A step of another operation, or one that no worker takes up.
abbrev IsSkipped : List String → OperationStepRow → Type 0
IsSkipped cancelled x =
    (includes cancelled x.operation_id ≡ false) ⊎ (is_skippable x.status ≡ false)

IsSkipped-refused :
    (cancelled : List String) (x : OperationStepRow)
    → (includes cancelled x.operation_id && is_skippable x.status) ≡ false
    → IsSkipped cancelled x
IsSkipped-refused cancelled x h = elim (Bool-cases (includes cancelled x.operation_id)) [
  | inl e ↦ inr (ground arith)
  | inr e ↦ inl e
]

at-mem {ℓ κ} : {A : Type ℓ} (P : A → Type κ) (xs : List A) (x : A) → All P xs → Memᴰ x xs → P x
at-mem P [] x h m = elim m [ ]
at-mem P (y ∷ ys) x (own, h) (Memᴰ.head e) = subst P (sym e) own
at-mem P (y ∷ ys) x (own, h) (Memᴰ.tail m) = at-mem P ys x h m

pub true_not : true ≡ false → ⊥
true_not e = cc

IsStopped-refused :
    (cancelled : List String) (o : OperationRow)
    → (includes cancelled o.id && is_cancellable o.status) ≡ false
    → IsStopped cancelled o
IsStopped-refused cancelled o h = elim (Bool-cases (includes cancelled o.id)) [
  | inl e ↦ inr (not_cancellable o.status (ground arith))
  | inr e ↦ inl e
]

module _ (operation_key : PublicationChild → String) where
  -- The operation has ended, and none of its steps waits.
  pub cancelled-IsStopped :
      (i : RotationIncident) (now : ℕ) (t : Tables) (e : Effects) (o o' : OperationRow)
      → BelongsTo operation_key i.id e o
      → Memᴰ o' (cancel_effects operation_key i.id now t e).operations
      → o'.id ≡ o.id
      → (o'.status ≡ OperationStatus.succeeded) ⊎ (o'.status ≡ OperationStatus.superseded)
  unfolding cancel_effects
  cancelled-IsStopped i now t e o o' belongs there same = ended (
      at-mem (IsStopped (cancelled_operations operation_key i.id e)) _ o'
        (All-update_where (IsStopped (cancelled_operations operation_key i.id e)) _ (supersede now)
          e.operations (λ x h. inr (inr refl))
          (λ x h. IsStopped-refused (cancelled_operations operation_key i.id e) x h))
        there)
    where
      chosen : includes (cancelled_operations operation_key i.id e) o'.id ≡ true
      chosen =
          ap (includes (cancelled_operations operation_key i.id e)) same
          ∙ cancelled-BelongsTo operation_key i.id e o belongs

      ended :
          IsStopped (cancelled_operations operation_key i.id e) o'
          → (o'.status ≡ OperationStatus.succeeded) ⊎ (o'.status ≡ OperationStatus.superseded)
      ended (inl other) = absurd (true_not (sym chosen ∙ other))
      ended (inr done) = done

  pub steps-AreSkipped :
      (i : RotationIncident) (now : ℕ) (t : Tables) (e : Effects) (o : OperationRow)
      (x : OperationStepRow)
      → BelongsTo operation_key i.id e o
      → Memᴰ x (cancel_effects operation_key i.id now t e).operation_steps
      → x.operation_id ≡ o.id
      → is_skippable x.status ≡ false
  unfolding cancel_effects
  steps-AreSkipped i now t e o x belongs there same = ended (
      at-mem (IsSkipped (cancelled_operations operation_key i.id e)) _ x
        (All-update_where (IsSkipped (cancelled_operations operation_key i.id e)) _ (skip now)
          e.operation_steps (λ y h. inr refl)
          (λ y h. IsSkipped-refused (cancelled_operations operation_key i.id e) y h))
        there)
    where
      chosen : includes (cancelled_operations operation_key i.id e) x.operation_id ≡ true
      chosen =
          ap (includes (cancelled_operations operation_key i.id e)) same
          ∙ cancelled-BelongsTo operation_key i.id e o belongs

      ended :
          IsSkipped (cancelled_operations operation_key i.id e) x → is_skippable x.status ≡ false
      ended (inl other) = absurd (true_not (sym chosen ∙ other))
      ended (inr done) = done
