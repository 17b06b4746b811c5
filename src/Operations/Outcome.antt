-- ===== src/Operations/Outcome.antt =====
-- After a job's pass no step of the operation is left open.
use master_dns.Common.{
  ℕ, ◌≡◌, refl, sym, ap, ◌∙◌, subst, Bool, true, false, Option, some, String, List, [], ◌∷◌, inl,
  inr, Bool-cases, if◌then◌else◌, Result, err, ok, ok-injective,
}
use mathlib.Core.Option.{some-injective}
use master_dns.Common.Text.{str_eq, str_eq_iff}
use master_dns.Operations.Errors.{ProviderError, Call, resume}
use master_dns.Operations.Types.{Step, Database}
use master_dns.Operations.Tables.{has_id, find_step, update_steps, skip_step}
use master_dns.Operations.Execute.{finish_step}
use master_dns.Operations.Transaction.{Execution}
use master_dns.Operations.Finishing.{IsDone, update_steps-IsDone, update_steps-keeps, closing-keeps}

-- What holds of a value that is returned.
abbrev pub Holds {ℓ} : {R A : Type 0} → (A → Type ℓ) → R × Result ProviderError A → Type ℓ
Holds {A} P run = (a : A) → run.1 ≡ ok a → P a

pub Holds-return {ℓ} :
    {R A : Type 0} (P : A → Type ℓ) (r : R) (a : A) → P a → Holds {R = R} P (r, ok a)
Holds-return P r a p b h = subst P (ok-injective a b h) p

pub Holds-throw {ℓ} :
    {R A : Type 0} (P : A → Type ℓ) (r : R) (e : ProviderError) → Holds {R = R} P (r, err e)
Holds-throw P r e b h = cc

pub Holds-bind {ℓ} :
    {R A B : Type 0} (P : B → Type ℓ) (first : R × Result ProviderError A) (next : A → Call R B)
    → ((a : A) (r : R) → Holds P (next a r))
    → Holds P (resume first next)
Holds-bind P (r, err e) next holds = Holds-throw P r e
Holds-bind P (r, ok a) next holds = holds a r

pub Holds-if {ℓ} :
    {R A : Type 0} (P : A → Type ℓ) (test : Bool) (one other : Call R A) (r : R)
    → Holds P (one r)
    → Holds P (other r)
    → Holds P ((if test then one else other) r)
Holds-if P true one other r p q = p
Holds-if P false one other r p q = q

abbrev pub Keeps : List Step → List Step → Type 0
Keeps before after = (id : String) → IsDone before id → IsDone after id

-- Where the result is true the step with the id is finished.
abbrev pub Advances : List Step → String → Database × Bool → Type 0
Advances before id result =
    Keeps before result.0.steps × (result.1 ≡ true → IsDone result.0.steps id)

pub find_step-id :
    (id : String) (steps : List Step) (step : Step) → find_step id steps ≡ some step → step.id ≡ id
find_step-id id [] step e = cc
find_step-id id (s ∷ steps) step e = elim (Bool-cases (str_eq s.id id)) [
  | inl t ↦ ap (λ x. x.id) (sym (some-injective _ _ (rw t at e))) ∙ (str_eq_iff s.id id).0 t
  | inr t ↦ find_step-id id steps step (rw t at e)
]

-- The same of an execution: what it keeps, and where it returns true.
abbrev pub Moves : {R : Type 0} → List Step → String → Execution R → Type 0
Moves before id run = Keeps before run.0.1.steps × (run.1 ≡ ok true → IsDone run.0.1.steps id)

pub Moves-as :
    {R : Type 0} (before : List Step) (a b : String) (run : Execution R)
    → a ≡ b
    → Moves before a run
    → Moves before b run
Moves-as before a b run e (keeps, reached) =
    (keeps, λ t. subst (λ id. IsDone run.0.1.steps id) e (reached t))

module _ (code : Option String) (now : ℕ) (id : String) where
  pub skip-Keeps :
      (steps : List Step) → Keeps steps (update_steps (has_id id) (skip_step code now) steps)
  skip-Keeps steps =
      update_steps-keeps (has_id id) (skip_step code now) (λ s. refl)
        (closing-keeps (has_id id) (skip_step code now) (λ s. refl)) steps

  pub skip-IsDone :
      (steps : List Step) → IsDone (update_steps (has_id id) (skip_step code now) steps) id
  skip-IsDone steps =
      update_steps-IsDone (has_id id) (skip_step code now) (λ s. refl) steps id (λ s h. rw h refl)

module _ (record_id : Option String) (now : ℕ) (id : String) where
  pub finish-Keeps :
      (steps : List Step) → Keeps steps (update_steps (has_id id) (finish_step record_id now) steps)
  finish-Keeps steps =
      update_steps-keeps (has_id id) (finish_step record_id now) (λ s. refl)
        (closing-keeps (has_id id) (finish_step record_id now) (λ s. refl)) steps

  pub finish-IsDone :
      (steps : List Step) → IsDone (update_steps (has_id id) (finish_step record_id now) steps) id
  finish-IsDone steps =
      update_steps-IsDone (has_id id) (finish_step record_id now) (λ s. refl) steps id
        (λ s h. rw h refl)
