-- ===== src/Operations/Pass.antt =====
-- A pass over the steps that comes to its end leaves each of them finished.
use master_dns.Common.{
  ◌≡◌, refl, Bool, true, false, ◌&&◌, String, List, [], ◌∷◌, inl, inr, Bool-cases, if◌then◌else◌,
  All, err, ok, any,
}
use master_dns.Operations.Errors.{ProviderError, ProviderErrorCode}
use master_dns.Operations.Types.{Step, Database}
use master_dns.Operations.Tables.{is_open_with, lock_active_operation}
use master_dns.Operations.Transaction.{Execution}
use master_dns.Operations.Process.{
  Job, is_settled, fail_step, record_failure, Ending, all_done, is_final, after_failure, after_step,
  run_steps,
}
use master_dns.Operations.Finishing.{
  IsDone, update_steps-IsDone, update_steps-keeps, open-keeps, ending-finishes,
}
use master_dns.Operations.Outcome.{Keeps, Moves}

false-true : ◌≡◌ {A = Bool} false true → ⊥
false-true e = cc

abbrev pub AreDone : List Step → List Step → Type 0
AreDone steps after = All (λ s. IsDone after s.id) steps

-- A pass that comes to the end of its list finishes the list and keeps what was finished.
abbrev pub Ends : {R : Type 0} → List Step → List Step → (R × Database) × Ending → Type 0
Ends before steps run = run.1 ≡ all_done → Keeps before run.0.1.steps × AreDone steps run.0.1.steps

-- The steps that the pass leaves out.
abbrev pub SettledAreDone : List Step → List Step → Type 0
SettledAreDone steps rows = All (λ s. is_settled s.status ≡ true → IsDone rows s.id) steps

module _ {R : Type 0} (code_text : ProviderErrorCode → String)
    (is_lock_failure : ProviderError → Bool) (job : Job)
    (execute : Step → Database → R → Execution R)
    (moves : (step : Step) (db : Database) (remote : R)
      → Moves db.steps step.id (execute step db remote)) where
  record_failure-Keeps :
      (step : Step) (e : ProviderError) (final : Bool) (db : Database)
      → Keeps db.steps (record_failure code_text job step e final db).0.steps
  unfolding record_failure
  record_failure-Keeps step e final db =
      elim (Bool-cases (lock_active_operation db && any (is_open_with step.id) db.steps)) [
        | inl t ↦
            let change = fail_step job e final (code_text e.code) step.attempts in
            rw t (
              update_steps-keeps (is_open_with step.id) change (λ s. refl)
                (open-keeps step.id change) db.steps)
        | inr t ↦ rw t (λ id h. h)
      ]

  -- A final failure that is recorded finishes its step.
  record_failure-IsDone :
      (step : Step) (e : ProviderError) (db : Database)
      → (record_failure code_text job step e true db).1 ≡ true
      → IsDone (record_failure code_text job step e true db).0.steps step.id
  unfolding record_failure
  record_failure-IsDone step e db h =
      elim (Bool-cases (lock_active_operation db && any (is_open_with step.id) db.steps)) [
        | inl t ↦ rw t (
            update_steps-IsDone (is_open_with step.id) _ (λ s. refl) db.steps step.id
              (ending-finishes step.id _ (λ s. refl)))
        | inr t ↦ absurd (false-true (rw t at h))
      ]

  failure-IsDone :
      (step : Step) (e : ProviderError) (final : Bool) (db : Database)
      → final ≡ true
      → (record_failure code_text job step e final db).1 ≡ true
      → IsDone (record_failure code_text job step e final db).0.steps step.id
  failure-IsDone step e true db t = record_failure-IsDone step e db
  failure-IsDone step e false db t = cc

  settled-Keeps :
      (steps before after : List Step)
      → Keeps before after
      → SettledAreDone steps before
      → SettledAreDone steps after
  settled-Keeps [] before after keeps h = tt
  settled-Keeps (s ∷ steps) before after keeps (own, h) =
      ((λ t. keeps s.id (own t)), settled-Keeps steps before after keeps h)

  abbrev Rest : Type 0
  Rest = Database → R → (R × Database) × Ending

  Ends-cons :
      (before : List Step) (step : Step) (rest : List Step) (db : Database) (remote : R)
      (go_on : Rest)
      → Keeps before db.steps
      → IsDone db.steps step.id
      → Ends db.steps rest (go_on db remote)
      → Ends before (step ∷ rest) (go_on db remote)
  Ends-cons before step rest db remote go_on keeps own ends t =
      let (kept, done) = ends t in ((λ id h. kept id (keeps id h)), (kept step.id own, done))

  after_failure-Ends :
      (before : List Step) (step : Step) (rest : List Step) (e : ProviderError) (final : Bool)
      (recorded : Database × Bool) (remote : R) (go_on : Rest)
      → Keeps before recorded.0.steps
      → (final ≡ true → recorded.1 ≡ true → IsDone recorded.0.steps step.id)
      → ((db : Database) (remote : R)
          → Keeps before db.steps
          → Ends db.steps rest (go_on db remote))
      → Ends before
          (step ∷ rest)
          (after_failure code_text is_lock_failure job execute e final recorded remote go_on)
  after_failure-Ends before step rest e final (db, false) remote go_on keeps own ends = λ t. cc
  after_failure-Ends before step rest e false (db, true) remote go_on keeps own ends = λ t. cc
  after_failure-Ends before step rest e true (db, true) remote go_on keeps own ends =
      Ends-cons before step rest db remote go_on keeps (own refl refl) (ends db remote keeps)

  after_step-Ends :
      (before : List Step) (step : Step) (rest : List Step) (run : Execution R) (go_on : Rest)
      → Moves before step.id run
      → ((db : Database) (remote : R)
          → Keeps before db.steps
          → Ends db.steps rest (go_on db remote))
      → Ends before (step ∷ rest) (after_step code_text is_lock_failure job execute step run go_on)
  after_step-Ends before step rest ((remote, db), ok true) go_on (keeps, own) ends =
      Ends-cons before step rest db remote go_on keeps (own refl) (ends db remote keeps)
  after_step-Ends before step rest ((remote, db), ok false) go_on (keeps, own) ends = λ t. cc
  after_step-Ends before step rest ((remote, db), err e) go_on (keeps, own) ends =
      let final = is_final code_text is_lock_failure job execute step e db in
      after_failure-Ends before step rest e final (record_failure code_text job step e final db)
        remote go_on (λ id h. record_failure-Keeps step e final db id (keeps id h))
        (failure-IsDone step e final db) ends

  Ends-if :
      (before steps : List Step) (test : Bool) (one other : (R × Database) × Ending)
      → (test ≡ true → Ends before steps one)
      → Ends before steps other
      → Ends before steps (if test then one else other)
  Ends-if before steps true one other p q = p refl
  Ends-if before steps false one other p q = q

  pub run_steps-Ends :
      (steps : List Step) (db : Database) (remote : R)
      → SettledAreDone steps db.steps
      → Ends db.steps steps (run_steps code_text is_lock_failure job execute steps db remote)
  unfolding run_steps
  run_steps-Ends [] db remote settled = λ t. ((λ id h. h), tt)
  run_steps-Ends (step ∷ rest) db remote (own, settled) =
      let go_on : Rest =
        λ db remote. run_steps code_text is_lock_failure job execute rest db remote in
      Ends-if db.steps (step ∷ rest) (is_settled step.status) (go_on db remote)
        (after_step code_text is_lock_failure job execute step (execute step db remote) go_on)
        (λ e.
          Ends-cons db.steps step rest db remote go_on (λ id h. h) (own e)
            (run_steps-Ends rest db remote settled))
        (after_step-Ends db.steps step rest (execute step db remote) go_on (moves step db remote)
          (λ after r keeps.
            run_steps-Ends rest after r (settled-Keeps rest db.steps after.steps keeps settled)))
