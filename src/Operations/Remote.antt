-- ===== src/Operations/Remote.antt =====
-- The provider's records: reading, writing and checking one, as `executeStep` does.
use master_dns.Common.{
  ℕ, zero, suc, ltb, Bool, Option, none, some, String, List, [], ◌∷◌, Result, err, ok,
  if◌then◌else◌,
}
use master_dns.Common.Text.{str_eq}
use master_dns.Records.Match.{DnsRecordInput, dns_record_matches}
use master_dns.Operations.Errors.{
  ProviderError, plain_error, unknown_provider_error, not_found, validation_failed,
  transient_failure, is_not_found, Call, ◌>>=◌, return_, throw,
}
use master_dns.Operations.Types.{StepAction, create, update, delete, StepInput, ProviderRecord}

pub record Page : Type 0 where
  pub items : List ProviderRecord
  pub next_cursor : Option String

-- A client of a DNS provider, on the states R that the provider's side can be in. Reading leaves
-- that as it is; a write that fails may have taken effect.
pub record Adapter (R : Type 0) : Type 1 where
  pub list_records : String → Option String → R → Result ProviderError Page
  pub get_record : String → String → R → Result ProviderError (Option ProviderRecord)
  pub create_record : String → DnsRecordInput → Call R ProviderRecord
  pub update_record : String → String → DnsRecordInput → Call R ProviderRecord
  pub delete_record : String → String → Call R (Unit {0})

-- `toLowerCase`, `replace(/\.$/, "")` and `String(index)` of the language.
pub record Language : Type 0 where
  pub to_lower : String → String
  pub strip_dot : String → String
  pub index_key : ℕ → String

abbrev pub matches : Language → DnsRecordInput → DnsRecordInput → Bool
matches language actual expected =
    dns_record_matches language.to_lower language.strip_dot language.index_key actual expected

abbrev pub find_match : (ProviderRecord → Bool) → List ProviderRecord → Option ProviderRecord
find_match wanted [] = none
find_match wanted (x ∷ xs) = let rest = find_match wanted xs in if wanted x then some x else rest

-- The cursor of a next page; the empty one ends the loop as an absent one does.
abbrev pub next_cursor : Option String → Option String
next_cursor none = none
next_cursor (some cursor) = if str_eq cursor "" then none else some cursor

abbrev Found : Type 0
Found = Result ProviderError (Option ProviderRecord)

-- `while (cursor)`
abbrev continue_with : Option String → (String → Found) → Found
continue_with none rest = ok none
continue_with (some cursor) rest = rest cursor

abbrev search_page : Option ProviderRecord → Option String → (String → Found) → Found
search_page (some found) next rest = ok (some found)
search_page none next rest = continue_with (next_cursor next) rest

abbrev search_pages : Result ProviderError Page → (ProviderRecord → Bool) → (String → Found) → Found
search_pages (err e) wanted rest = err e
search_pages (ok page) wanted rest =
    search_page (find_match wanted page.items) page.next_cursor rest

-- `findMatchingRecord` on at most `fuel` pages. The loop of the source has no limit; a listing with
-- more pages than the fuel ends here in an error.
unfoldable pub find_matching_record :
    (fuel : ℕ)
    → (Option String → Result ProviderError Page)
    → (ProviderRecord → Bool)
    → Option String
    → Result ProviderError (Option ProviderRecord)
find_matching_record zero listing wanted cursor = err (plain_error unknown_provider_error)
find_matching_record (suc fuel) listing wanted cursor =
    search_pages (listing cursor) wanted
      (λ next. find_matching_record fuel listing wanted (some next))

module _ {R : Type 0} (adapter : Adapter R) (language : Language) (fuel : ℕ) where
  abbrev pub read_record : String → String → Call R (Option ProviderRecord)
  read_record zone id remote = (remote, adapter.get_record zone id remote)

  abbrev pub checked : DnsRecordInput → Option ProviderRecord → Call R ProviderRecord
  checked expected none = throw transient_failure
  checked expected (some found) =
      if matches language found.fields expected then return_ found else throw transient_failure

  unfoldable pub verify_remote_record : String → String → DnsRecordInput → Call R ProviderRecord
  verify_remote_record zone id expected = read_record zone id >>= checked expected

  -- `catch` of a record that is gone already.
  abbrev pub tolerate : R × Result ProviderError (Unit {0}) → R × Result ProviderError (Unit {0})
  tolerate (remote, ok done) = (remote, ok done)
  tolerate (remote, err e) = (remote, (if is_not_found e.code then ok tt else err e))

  abbrev pub delete_existing : String → String → Option ProviderRecord → Call R (Unit {0})
  delete_existing zone id none remote = return_ tt remote
  delete_existing zone id (some found) remote = tolerate (adapter.delete_record zone id remote)

  abbrev pub must_be_gone : Option ProviderRecord → Call R (Unit {0})
  must_be_gone none = return_ tt
  must_be_gone (some found) = throw transient_failure

  unfoldable pub delete_remote_record_and_verify : String → String → Call R (Unit {0})
  delete_remote_record_and_verify zone id = do
    existing ← read_record zone id
    done ← delete_existing zone id existing
    verified ← read_record zone id
    must_be_gone verified

  abbrev pub or_create : String → DnsRecordInput → Option ProviderRecord → Call R ProviderRecord
  or_create zone wanted (some found) = return_ found
  or_create zone wanted none = adapter.create_record zone wanted

  abbrev pub found_earlier :
      (attempts : ℕ) → String → DnsRecordInput → Call R (Option ProviderRecord)
  found_earlier attempts zone wanted remote =
      if ltb 0 attempts
      then (
        remote,
        find_matching_record fuel (λ cursor. adapter.list_records zone cursor remote)
            (λ r. matches language r.fields wanted) none,
      )
      else (remote, ok none)

  unfoldable pub create_step : (attempts : ℕ) → String → DnsRecordInput → Call R ProviderRecord
  create_step attempts zone wanted = do
    earlier ← found_earlier attempts zone wanted
    made ← or_create zone wanted earlier
    verify_remote_record zone made.external_id wanted

  abbrev pub or_read : String → String → Option ProviderRecord → Call R (Option ProviderRecord)
  or_read zone id (some before) = return_ (some before)
  or_read zone id none = read_record zone id

  abbrev pub write_unless_same :
      String → String → DnsRecordInput → Option ProviderRecord → Call R ProviderRecord
  write_unless_same zone id wanted none = throw not_found
  write_unless_same zone id wanted (some existing) =
      if matches language existing.fields wanted
      then return_ existing
      else adapter.update_record zone id wanted

  unfoldable pub update_step :
      Option ProviderRecord → String → String → DnsRecordInput → Call R ProviderRecord
  update_step before zone id wanted = do
    existing ← or_read zone id before
    written ← write_unless_same zone id wanted existing
    verify_remote_record zone written.external_id wanted

  abbrev pub as_remote : ProviderRecord → Call R (Option ProviderRecord)
  as_remote written = return_ (some written)

  abbrev pub nothing_left : Unit {0} → Call R (Option ProviderRecord)
  nothing_left done = return_ none

  -- The three branches on `step.action`, with `input.record` and `input.recordExternalId`.
  abbrev pub act :
      (attempts : ℕ)
      → Option ProviderRecord
      → String
      → StepAction
      → Option DnsRecordInput
      → Option String
      → Call R (Option ProviderRecord)
  act attempts before zone create none id = throw validation_failed
  act attempts before zone create (some wanted) id = create_step attempts zone wanted >>= as_remote
  act attempts before zone update (some wanted) (some id) =
      update_step before zone id wanted >>= as_remote
  act attempts before zone update _ _ = throw validation_failed
  act attempts before zone delete wanted none = throw validation_failed
  act attempts before zone delete wanted (some id) =
      delete_remote_record_and_verify zone id >>= nothing_left

  -- `before` is the record that was read before the transaction.
  unfoldable pub apply_action :
      (attempts : ℕ)
      → (before : Option ProviderRecord) → StepAction
      → StepInput
      → Call R (Option ProviderRecord)
  apply_action attempts before action input =
      act attempts before input.zone_external_id action input.input_record input.record_external_id
