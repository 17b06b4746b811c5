-- ===== src/Cloud/Starting.antt =====
-- The first step of the actions that are planned, and the arguments of each.
use master_dns.Common.{
  ◌≡◌, refl, sym, ap, ◌∙◌, inl, inr, subst, ℕ, suc, Bool, true, false, not, ◌&&◌, ◌||◌, List, [],
  ◌∷◌, String, All, Bool-cases, Result, ok, err, ◌>>◌, throw_if, first_returns, ok-injective, arith,
}
use master_dns.Common.Text.{utf16}
use master_dns.Cloud.Types.{
  CloudService, ec2, lightsail, azure_vm, linode, same_service, is_v6, SlotRef, CloudAddress,
  CloudInventory, is_present,
}
use master_dns.Cloud.Steps.{
  invalid_step, has_texts, matches_id, RotationAction, RotationStepArguments, CloudStep,
  rotation_arguments, is_destructive, is_of, new_step, make_rotation_step,
}
use master_dns.Cloud.Plan.{
  Thrown, ec2_actions, lightsail_actions, plan_actions, make_steps, rotation_args,
}

-- The first step keeps what there is, or the old address is released in any case.
pub data HasStart (releases : Bool) : List CloudStep → Type 0 where
  creates :
      (step : CloudStep) (steps : List CloudStep)
      → step.destructive ≡ false
      → HasStart releases (step ∷ steps)
  gives_up :
      (step : CloudStep) (steps : List CloudStep)
      → releases ≡ true
      → HasStart releases (step ∷ steps)

pub data HasFirst (releases : Bool) : List RotationAction → Type 0 where
  creating :
      (action : RotationAction) (actions : List RotationAction)
      → is_destructive action ≡ false
      → HasFirst releases (action ∷ actions)
  giving_up :
      (action : RotationAction) (actions : List RotationAction)
      → releases ≡ true
      → HasFirst releases (action ∷ actions)

-- The arguments of a step are accepted, and are those of the slot in its inventory.
pub record IsStepOf (slot : SlotRef) (inventory : CloudInventory) (step : CloudStep) : Type 0 where
  pub accepted : rotation_arguments step.arguments ≡ ok step.arguments
  pub of_slot : step.arguments.slot ≡ slot
  pub of_inventory : step.arguments.before ≡ inventory

unfoldable pub releases_old : CloudService → (v6 allocated : Bool) → Bool
releases_old service v6 allocated =
    (not v6 && not allocated) || (same_service service lightsail && v6)

ec2-HasFirst :
    (v6 allocated : Bool) → HasFirst (releases_old ec2 v6 allocated) (ec2_actions v6 allocated)
unfolding releases_old is_destructive
ec2-HasFirst true allocated = creating _ _ refl
ec2-HasFirst false true = creating _ _ refl
ec2-HasFirst false false = giving_up _ _ refl

lightsail-HasFirst :
    (v6 allocated : Bool)
    → HasFirst (releases_old lightsail v6 allocated) (lightsail_actions v6 allocated)
unfolding releases_old is_destructive
lightsail-HasFirst true allocated = giving_up _ _ (ground arith)
lightsail-HasFirst false true = creating _ _ refl
lightsail-HasFirst false false = creating _ _ refl

-- A test that did not throw.
pub passes {ℓ} :
    {E : Type ℓ} {V : Type 0} (test : Bool) (thrown : E) (next : Result E V) {v : V}
    → (throw_if test thrown >> next) ≡ ok v
    → (test ≡ false) × (next ≡ ok v)
passes true thrown next h = cc
passes false thrown next h = (refl, h)

rotation_arguments_same :
    (a : RotationStepArguments) {v : RotationStepArguments}
    → rotation_arguments a ≡ ok v
    → rotation_arguments a ≡ ok a
unfolding rotation_arguments
rotation_arguments_same a h =
    h
    ∙ ap ok (
        sym (
          ok-injective _ _ (
            (passes (not (is_of a.slot a.before)) invalid_step (ok a) (
              (passes (not (has_texts a.slot)) invalid_step _
                ((passes (not (matches_id (utf16 a.attempt_id))) invalid_step _ h).1)).1)).1)))

make_rotation_step-made :
    (action : RotationAction) (args : RotationStepArguments) (index : ℕ) {step : CloudStep}
    → make_rotation_step action args index ≡ ok step
    → (step ≡ new_step action args index) × (rotation_arguments args ≡ ok args)
unfolding make_rotation_step
make_rotation_step-made action args index h =
    let first = first_returns (rotation_arguments args) _ h in
    (sym (ok-injective _ _ first.2), rotation_arguments_same args first.1)

HasFirst-HasStart :
    (releases : Bool) (action : RotationAction) (actions : List RotationAction)
    → HasFirst releases (action ∷ actions)
    → (step : CloudStep) → step.destructive ≡ is_destructive action
    → (steps : List CloudStep) → HasStart releases (step ∷ steps)
HasFirst-HasStart releases action actions (creating _ _ keeps) step same steps =
    creates step steps (same ∙ keeps)
HasFirst-HasStart releases action actions (giving_up _ _ gone) step same steps =
    gives_up step steps gone

module _ (slot : SlotRef) (inventory : CloudInventory) (attempt_id : String) where
  new_step-IsStepOf :
      (action : RotationAction) (index : ℕ)
      → rotation_arguments (rotation_args slot inventory attempt_id)
        ≡ ok (rotation_args slot inventory attempt_id)
      → IsStepOf slot inventory (new_step action (rotation_args slot inventory attempt_id) index)
  new_step-IsStepOf action index h = record { accepted = h; of_slot = refl; of_inventory = refl }

  pub make_steps-AreStepsOf :
      (index : ℕ) (actions : List RotationAction) {steps : List CloudStep}
      → make_steps (rotation_args slot inventory attempt_id) index actions ≡ ok steps
      → All (IsStepOf slot inventory) steps
  make_steps-AreStepsOf index [] h = subst (All (IsStepOf slot inventory)) (ok-injective _ _ h) tt
  make_steps-AreStepsOf index (action ∷ actions) h =
      let first =
        first_returns (make_rotation_step action (rotation_args slot inventory attempt_id) index) _
          h in
      let later =
        first_returns (make_steps (rotation_args slot inventory attempt_id) (suc index) actions) _
          first.2 in
      let made =
        make_rotation_step-made action (rotation_args slot inventory attempt_id) index first.1 in
      subst (All (IsStepOf slot inventory)) (ok-injective _ _ later.2) (
        subst (IsStepOf slot inventory) (sym made.0) (new_step-IsStepOf action index made.1),
        make_steps-AreStepsOf (suc index) actions later.1,
      )

  pub make_steps-HasStart :
      (releases : Bool) (index : ℕ) (actions : List RotationAction) {steps : List CloudStep}
      → HasFirst releases actions
      → make_steps (rotation_args slot inventory attempt_id) index actions ≡ ok steps
      → HasStart releases steps
  make_steps-HasStart releases index [] start h = elim start [ ]
  make_steps-HasStart releases index (action ∷ actions) start h =
      let first =
        first_returns (make_rotation_step action (rotation_args slot inventory attempt_id) index) _
          h in
      let later =
        first_returns (make_steps (rotation_args slot inventory attempt_id) (suc index) actions) _
          first.2 in
      let made =
        make_rotation_step-made action (rotation_args slot inventory attempt_id) index first.1 in
      subst (HasStart releases) (ok-injective _ _ later.2) (
        HasFirst-HasStart releases action actions start first.0 (ap (λ s. s.destructive) made.0)
          later.0)

pub plan_actions-HasFirst :
    (slot : SlotRef) (inventory : CloudInventory) (service : CloudService) (a : CloudAddress)
    {actions : List RotationAction}
    → plan_actions slot inventory service a ≡ ok actions
    → HasFirst (releases_old service (is_v6 slot.family) (is_present a.allocation_id)) actions
plan_actions-HasFirst slot inventory ec2 a h =
    subst (HasFirst _) (ok-injective _ _ h)
      (ec2-HasFirst (is_v6 slot.family) (is_present a.allocation_id))
plan_actions-HasFirst slot inventory lightsail a h =
    elim (Bool-cases (is_present inventory.native_name)) [
      | inl e ↦
          subst (HasFirst _) (ok-injective _ _ (rw e at h))
            (lightsail-HasFirst (is_v6 slot.family) (is_present a.allocation_id))
      | inr e ↦ absurd (err_not_ok (rw e at h))
    ]
  where
    err_not_ok :
        {thrown : Thrown} {actions : List RotationAction}
        → ◌≡◌ {A = Result Thrown (List RotationAction)} (err thrown) (ok actions)
        → ⊥
    err_not_ok e = cc
plan_actions-HasFirst slot inventory azure_vm a h = cc
plan_actions-HasFirst slot inventory linode a h = cc
