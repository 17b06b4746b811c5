-- ===== src/Ddns/Addresses.antt =====
-- ddns.service.ts: what a heartbeat does to the endpoint's rows of `endpoint_addresses`.
use master_dns.Common.{
  ℕ, ◌+◌, Bool, true, false, ◌&&◌, ◌||◌, Option, none, some, String, List, [], ◌∷◌, ◌++◌, is_some,
  if◌then◌else◌, Result, ok, ◌>>◌, throw_if,
}
use master_dns.Common.Text.{str_eq}
use master_dns.Strategy.Types.{AddressFamily}
use master_dns.Strategy.Candidates.{same_family}
use master_dns.Ddns.Reports.{DdnsAddressUpdate}

pub data AddressState : Type 0 where
  candidate current previous : AddressState

pub record AddressRow : Type 0 where
  pub id : String
  pub family : AddressFamily
  pub address : String
  pub state : AddressState
  pub observed_at : ℕ
  pub replaced_at : Option ℕ

abbrev pub same_state : AddressState → AddressState → Bool
same_state candidate candidate = true
same_state current current = true
same_state previous previous = true
same_state _ _ = false

abbrev pub is_live : AddressFamily → AddressState → AddressRow → Bool
is_live family state row = same_family row.family family && same_state row.state state

-- The query for the row of a family and a state.
abbrev pub find_live : AddressFamily → AddressState → List AddressRow → Option AddressRow
find_live family state [] = none
find_live family state (row ∷ rows) =
    let later = find_live family state rows in if is_live family state row then some row else later

abbrev pub retire_row : String → ℕ → AddressRow → AddressRow
retire_row id now row =
    if str_eq row.id id then record row { state = previous; replaced_at = some now } else row

abbrev pub retire : String → ℕ → List AddressRow → List AddressRow
retire id now [] = []
retire id now (row ∷ rows) = retire_row id now row ∷ retire id now rows

-- What the loop over the reported addresses collects, with the rows so far.
pub record Report : Type 0 where
  pub rows : List AddressRow
  pub candidates : List AddressRow
  pub created : List AddressRow
  pub withdrawn : List AddressFamily
  pub published_withdrawals : List AddressFamily
  pub changed : Bool

abbrev pub start_report : List AddressRow → Report
start_report rows = record {
  rows = rows;
  candidates = [];
  created = [];
  withdrawn = [];
  published_withdrawals = [];
  changed = false;
}

abbrev pub retire_found : Option AddressRow → ℕ → Report → Report
retire_found none now r = r
retire_found (some row) now r = record r { rows = retire row.id now r.rows; changed = true }

abbrev pub note_families : Bool → AddressFamily → List AddressFamily → List AddressFamily
note_families true family families = families ++ (family ∷ [])
note_families false family families = families

-- `address.address === null`
abbrev pub withdraw :
    ℕ → AddressFamily → (now_current now_candidate : Option AddressRow) → Report → Report
withdraw now family now_current now_candidate r =
    let retired = retire_found now_current now (retire_found now_candidate now r) in
    record retired {
      published_withdrawals = note_families (is_some now_current) family r.published_withdrawals;
      withdrawn = note_families (is_some now_current || is_some now_candidate) family r.withdrawn;
    }

abbrev pub new_row : String → AddressFamily → String → ℕ → AddressRow
new_row id family address now = record {
  id = id;
  family = family;
  address = address;
  state = candidate;
  observed_at = now;
  replaced_at = none;
}

abbrev pub create_candidate : AddressRow → Report → Report
create_candidate row r = record r {
  rows = row ∷ r.rows;
  candidates = r.candidates ++ (row ∷ []);
  created = r.created ++ (row ∷ []);
  changed = true;
}

abbrev pub is_at : Option AddressRow → String → Bool
is_at none address = false
is_at (some row) address = str_eq row.address address

abbrev pub keep_candidate : Option AddressRow → Report → Report
keep_candidate none r = r
keep_candidate (some row) r = record r { candidates = r.candidates ++ (row ∷ []) }

-- `fresh` is the id of the row that is inserted, if one is.
abbrev pub observe_address :
    ℕ
    → String
    → AddressFamily
    → String
    → (now_current now_candidate : Option AddressRow) → Report
    → Report
observe_address now fresh family address now_current now_candidate r =
    if is_at now_current address
    then retire_found now_candidate now r
    else if is_at now_candidate address
    then keep_candidate now_candidate r
    else create_candidate (new_row fresh family address now) (retire_found now_candidate now r)

abbrev pub report_found :
    ℕ
    → String
    → AddressFamily
    → Option String
    → (now_current now_candidate : Option AddressRow) → Report
    → Report
report_found now fresh family none now_current now_candidate r =
    withdraw now family now_current now_candidate r
report_found now fresh family (some address) now_current now_candidate r =
    observe_address now fresh family address now_current now_candidate r

unfoldable pub report_address : ℕ → DdnsAddressUpdate × String → Report → Report
report_address now (update, fresh) r =
    report_found now fresh update.family update.address (find_live update.family current r.rows)
      (find_live update.family candidate r.rows) r

-- The loop. Each update has the id of the row that it may insert beside it.
unfoldable pub report_addresses : ℕ → List (DdnsAddressUpdate × String) → Report → Report
report_addresses now [] r = r
report_addresses now (update ∷ updates) r =
    report_addresses now updates (report_address now update r)

pub data AddressError : Type 0 where
  address_deleting : AddressError

abbrev pub reports_deleting :
    (is_deleting : String → Bool) → List (DdnsAddressUpdate × String) → Bool
reports_deleting is_deleting [] = false
reports_deleting is_deleting ((update, fresh) ∷ updates) =
    deleting update.address || reports_deleting is_deleting updates
  where
    deleting : Option String → Bool
    deleting none = false
    deleting (some address) = is_deleting address

-- What the transaction leaves: the report, the pool's decision revision, the revision of the intent
-- that asks for a repair, and the time of the agent's last change.
pub record HeartbeatOutcome : Type 0 where
  pub report : Report
  pub decision_revision : ℕ
  pub repair : Option ℕ
  pub last_ip_changed_at : Option ℕ

abbrev pub is_nonempty {ℓ} : {A : Type ℓ} → List A → Bool
is_nonempty [] = false
is_nonempty (x ∷ xs) = true

abbrev pub conclude_heartbeat : ℕ → ℕ → Option ℕ → Report → HeartbeatOutcome
conclude_heartbeat now revision changed_at r =
    let next = revision + 1 in
    let repairs = is_nonempty r.published_withdrawals in
    record {
      report = r;
      decision_revision = if repairs then next else revision;
      repair = if repairs then some next else none;
      last_ip_changed_at = if r.changed then some now else changed_at;
    }

unfoldable pub heartbeat_addresses :
    (is_deleting : String → Bool)
    → (now revision : ℕ) → Option ℕ
    → List (DdnsAddressUpdate × String)
    → List AddressRow
    → Result AddressError HeartbeatOutcome
heartbeat_addresses is_deleting now revision changed_at updates rows =
    throw_if (reports_deleting is_deleting updates) address_deleting
    >> ok (
        conclude_heartbeat now revision changed_at
          (report_addresses now updates (start_report rows)))
