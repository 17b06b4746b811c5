-- ===== src/Operations/Writing.antt =====
-- What the provider holds when a step's write returns.
use master_dns.Common.{
  ℕ, ◌≡◌, refl, sym, ◌∙◌, ap, Bool, true, false, Option, none, some, String, Result, err, ok,
  ok-injective, if◌then◌else◌,
}
use master_dns.Records.Match.{DnsRecordInput}
use master_dns.Operations.Errors.{ProviderError, Call, resume, return_, throw, transient_failure}
use master_dns.Operations.Types.{StepAction, create, update, delete, StepInput, ProviderRecord}
use master_dns.Operations.Remote.{
  Adapter, Language, matches, checked, must_be_gone, act, as_remote, nothing_left, found_earlier,
  or_create, or_read, write_unless_same, read_record, delete_existing, verify_remote_record,
  delete_remote_record_and_verify, create_step, update_step, apply_action,
}

-- Where a chain of calls returns, its first call did, and the rest ran on what that left.
resume-ok :
    {R A B : Type 0} (first : R × Result ProviderError A) (next : A → Call R B) (b : B)
    → (resume first next).1 ≡ ok b
    → (a : A) × (first.1 ≡ ok a)
      × (resume first next ≡ next a first.0)
      × ((next a first.0).1 ≡ ok b)
resume-ok (r, err e) next b h = cc
resume-ok (r, ok a) next b h = (a, refl, refl, h)

-- A property of a chain's end that every failure has.
resume-holds {ℓ} :
    {R A B : Type 0} (P : R × Result ProviderError B → Type ℓ) (first : R × Result ProviderError A)
    (next : A → Call R B)
    → ((r : R) (e : ProviderError) → P (r, err e))
    → ((a : A) (r : R) → P (next a r))
    → P (resume first next)
resume-holds P (r, err e) next fails holds = fails r e
resume-holds P (r, ok a) next fails holds = holds a r

module _ {R : Type 0} (adapter : Adapter R) (language : Language) (fuel : ℕ) where
  -- The provider holds a record under some id, and it is the one wanted.
  abbrev IsThere : String → DnsRecordInput → ProviderRecord → R → Type 0
  IsThere zone wanted found after =
      ((id : String) × (adapter.get_record zone id after ≡ ok (some found)))
      × (matches language found.fields wanted ≡ true)

  tested :
      (test : Bool) (r found : ProviderRecord) (after : R)
      → let run = (if test then return_ r else throw transient_failure) after in
        run.1 ≡ ok found → (test ≡ true) × (r ≡ found) × (run.0 ≡ after)
  tested true r found after h = (refl, ok-injective r found h, refl)
  tested false r found after h = cc

  checked-IsThere :
      (wanted : DnsRecordInput) (read : Option ProviderRecord) (after : R) (found : ProviderRecord)
      → (checked adapter language fuel wanted read after).1 ≡ ok found
      → (read ≡ some found)
        × (matches language found.fields wanted ≡ true)
        × ((checked adapter language fuel wanted read after).0 ≡ after)
  checked-IsThere wanted none after found h = cc
  checked-IsThere wanted (some r) after found h =
      let (test, same, still) = tested (matches language r.fields wanted) r found after h in
      (ap some same, ap (λ x. matches language x.fields wanted) (sym same) ∙ test, still)

  verify_remote_record-IsThere :
      (zone id : String) (wanted : DnsRecordInput) (remote : R) (found : ProviderRecord)
      → let run = verify_remote_record adapter language fuel zone id wanted remote in
        run.1 ≡ ok found → IsThere zone wanted found run.0
  unfolding verify_remote_record
  verify_remote_record-IsThere zone id wanted remote found h =
      let (read, first, whole, rest) =
        resume-ok (remote, adapter.get_record zone id remote) (checked adapter language fuel wanted)
          found h in
      let (there, same, still) = checked-IsThere wanted read remote found rest in
      ((id, rw (whole, still) (first ∙ ap ok there)), same)

  abbrev EndsThere : String → DnsRecordInput → R × Result ProviderError ProviderRecord → Type 0
  EndsThere zone wanted run =
      (found : ProviderRecord) → run.1 ≡ ok found → IsThere zone wanted found run.0

  abbrev EndsGone : String → String → R × Result ProviderError (Unit {0}) → Type 0
  EndsGone zone id run = run.1 ≡ ok tt → adapter.get_record zone id run.0 ≡ ok none

  failed-EndsThere :
      (zone : String) (wanted : DnsRecordInput) (r : R) (e : ProviderError)
      → EndsThere zone wanted (r, err e)
  failed-EndsThere zone wanted r e found h = cc

  create_step-EndsThere :
      (attempts : ℕ) (zone : String) (wanted : DnsRecordInput) (remote : R)
      → EndsThere zone wanted (create_step adapter language fuel attempts zone wanted remote)
  unfolding create_step
  create_step-EndsThere attempts zone wanted remote =
      resume-holds (EndsThere zone wanted)
        (found_earlier adapter language fuel attempts zone wanted remote) _
        (failed-EndsThere zone wanted)
        λ earlier r.
          resume-holds (EndsThere zone wanted)
            (or_create adapter language fuel zone wanted earlier r) _ (failed-EndsThere zone wanted)
            λ made after. verify_remote_record-IsThere zone made.external_id wanted after

  update_step-EndsThere :
      (before : Option ProviderRecord) (zone id : String) (wanted : DnsRecordInput) (remote : R)
      → EndsThere zone wanted (update_step adapter language fuel before zone id wanted remote)
  unfolding update_step
  update_step-EndsThere before zone id wanted remote =
      resume-holds (EndsThere zone wanted) (or_read adapter language fuel zone id before remote) _
        (failed-EndsThere zone wanted)
        λ existing r.
          resume-holds (EndsThere zone wanted)
            (write_unless_same adapter language fuel zone id wanted existing r) _
            (failed-EndsThere zone wanted)
            λ written after. verify_remote_record-IsThere zone written.external_id wanted after

  failed-EndsGone : (zone id : String) (r : R) (e : ProviderError) → EndsGone zone id (r, err e)
  failed-EndsGone zone id r e h = cc

  gone :
      (read : Result ProviderError (Option ProviderRecord)) (r : R)
      → let run = resume (r, read) (must_be_gone adapter language fuel) in
        run.1 ≡ ok tt → (run.0 ≡ r) × (read ≡ ok none)
  gone (err e) r h = cc
  gone (ok none) r h = (refl, refl)
  gone (ok (some found)) r h = cc

  delete-EndsGone :
      (zone id : String) (remote : R)
      → EndsGone zone id (delete_remote_record_and_verify adapter language fuel zone id remote)
  unfolding delete_remote_record_and_verify
  delete-EndsGone zone id remote =
      resume-holds (EndsGone zone id) (read_record adapter language fuel zone id remote) _
        (failed-EndsGone zone id)
        λ existing r.
          resume-holds (EndsGone zone id) (delete_existing adapter language fuel zone id existing r)
            _ (failed-EndsGone zone id)
            λ done after h.
              let (still, absent) = gone (adapter.get_record zone id after) after h in
              rw still absent

  -- What a step is for: a record as wanted, or none under the id.
  abbrev IsDone :
      String
      → StepAction
      → Option DnsRecordInput
      → Option String
      → Option ProviderRecord
      → R
      → Type 0
  IsDone zone delete wanted id left after =
      (left ≡ none)
      × ((gone_id : String) × (id ≡ some gone_id)
          × (adapter.get_record zone gone_id after ≡ ok none))
  IsDone zone _ wanted id left after =
      (found : ProviderRecord) × (record_ : DnsRecordInput) × (left ≡ some found)
      × (wanted ≡ some record_)
      × IsThere zone record_ found after

  abbrev pub IsApplied : StepAction → StepInput → Option ProviderRecord → R → Type 0
  IsApplied action input left after =
      IsDone input.zone_external_id action input.input_record input.record_external_id left after

  end-IsThere :
      (zone : String) (wanted : DnsRecordInput) (run : R × Result ProviderError ProviderRecord)
      → EndsThere zone wanted run
      → (left : Option ProviderRecord)
      → let whole = resume run (as_remote adapter language fuel) in
        whole.1 ≡ ok left
        → (found : ProviderRecord) × (record_ : DnsRecordInput) × (left ≡ some found)
          × (some wanted ≡ some record_)
          × IsThere zone record_ found whole.0
  end-IsThere zone wanted (r, err e) ends left h = cc
  end-IsThere zone wanted (r, ok found) ends left h =
      (found, wanted, ok-injective left (some found) (sym h), refl, ends found refl)

  end_gone :
      (zone id : String) (run : R × Result ProviderError (Unit {0}))
      → EndsGone zone id run
      → (left : Option ProviderRecord)
      → let whole = resume run (nothing_left adapter language fuel) in
        whole.1 ≡ ok left
        → (left ≡ none)
          × ((gone_id : String) × (some id ≡ some gone_id)
              × (adapter.get_record zone gone_id whole.0 ≡ ok none))
  end_gone zone id (r, err e) ends left h = cc
  end_gone zone id (r, ok done) ends left h =
      (ok-injective left none (sym h), (id, refl, ends refl))

  act-IsDone :
      (attempts : ℕ) (before : Option ProviderRecord) (zone : String) (action : StepAction)
      (wanted : Option DnsRecordInput) (id : Option String) (remote : R)
      (left : Option ProviderRecord)
      → let run = act adapter language fuel attempts before zone action wanted id remote in
        run.1 ≡ ok left → IsDone zone action wanted id left run.0
  act-IsDone attempts before zone create none id remote left h = cc
  act-IsDone attempts before zone create (some wanted) id remote left h =
      end-IsThere zone wanted _ (create_step-EndsThere attempts zone wanted remote) left h
  act-IsDone attempts before zone update none id remote left h = cc
  act-IsDone attempts before zone update (some wanted) none remote left h = cc
  act-IsDone attempts before zone update (some wanted) (some id) remote left h =
      end-IsThere zone wanted _ (update_step-EndsThere before zone id wanted remote) left h
  act-IsDone attempts before zone delete wanted none remote left h = cc
  act-IsDone attempts before zone delete wanted (some id) remote left h =
      end_gone zone id _ (delete-EndsGone zone id remote) left h

  -- Where a step's write returns, the provider then holds what the step is for, whatever its calls
  -- did: after a create or an update, under some id, the record that is returned, which matches
  -- the wanted one; after a delete, no record under the step's id.
  pub apply_action-IsApplied :
      (attempts : ℕ) (before : Option ProviderRecord) (action : StepAction) (input : StepInput)
      (remote : R) (left : Option ProviderRecord)
      → let run = apply_action adapter language fuel attempts before action input remote in
        run.1 ≡ ok left → IsApplied action input left run.0
  unfolding apply_action
  apply_action-IsApplied attempts before action input remote left h =
      act-IsDone attempts before input.zone_external_id action input.input_record
        input.record_external_id remote left h
