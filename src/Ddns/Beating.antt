-- ===== src/Ddns/Beating.antt =====
-- A heartbeat's whole loop, as a run of reports on each family apart.
use master_dns.Common.{
  ℕ, ◌≡◌, refl, sym, ap, ◌∙◌, subst, Bool, true, false, Option, none, some, String, List, [], ◌∷◌,
  All, inl, inr, Bool-cases, ok, ok-injective, throw_if, first_returns,
}
use master_dns.Common.Text.{str_eq}
use master_dns.Strategy.Types.{AddressFamily}
use master_dns.Strategy.Candidates.{same_family}
use master_dns.Ddns.Reports.{DdnsAddressUpdate}
use master_dns.Ddns.Addresses.{
  current, candidate, AddressRow, Report, find_live, is_at, retire_found, report_found,
  report_address, report_addresses, start_report, address_deleting, reports_deleting,
  HeartbeatOutcome, conclude_heartbeat, heartbeat_addresses,
}
use master_dns.Ddns.Table.{lacks_id, IsTable, lacks_id-retire}
use master_dns.Ddns.Publishing.{
  Standing, view, publish_if, IsPublished, withdraw-IsPublished, confirm-IsPublished,
  keep-IsPublished, create-IsPublished, keep_candidate_rows,
}

-- The reports on a family, one after the other.
abbrev pub publish_all : AddressFamily → List (DdnsAddressUpdate × String) → Standing → Standing
publish_all family [] standing = standing
publish_all family ((update, fresh) ∷ updates) standing =
    publish_all family updates
      (publish_if (same_family update.family family) standing update.address)

-- The ids for new rows are distinct, and not in the table.
abbrev pub AreFresh : List (DdnsAddressUpdate × String) → List AddressRow → Type 0
AreFresh [] rows = Unit
AreFresh ((update, fresh) ∷ updates) rows =
    (lacks_id fresh rows ≡ true)
    × All (λ u. str_eq fresh u.1 ≡ false) updates
    × AreFresh updates rows

report_found-IsPublished :
    (now : ℕ) (fresh : String) (family : AddressFamily) (address : Option String) (r : Report)
    → IsTable r.rows
    → lacks_id fresh r.rows ≡ true
    → IsPublished family address r.rows
        (report_found now fresh family address
          (find_live family current r.rows)
          (find_live family candidate r.rows)
          r).rows
report_found-IsPublished now fresh family none r table own = withdraw-IsPublished now family r table
report_found-IsPublished now fresh family (some address) r table own =
    elim (Bool-cases (is_at (find_live family current r.rows) address)) [
      | inl e ↦ rw e (confirm-IsPublished now family address r table e)
      | inr e ↦ elim (Bool-cases (is_at (find_live family candidate r.rows) address)) [
        | inl f ↦
            rw (e, f)
              (subst (λ rows. IsPublished family (some address) r.rows rows)
                (sym (keep_candidate_rows (find_live family candidate r.rows) r))
                (keep-IsPublished family address r table e f))
        | inr f ↦ rw (e, f) (create-IsPublished now fresh family address r table own e)
      ]
    ]

report_address-IsPublished :
    (now : ℕ) (update : DdnsAddressUpdate) (fresh : String) (r : Report)
    → IsTable r.rows
    → lacks_id fresh r.rows ≡ true
    → IsPublished update.family update.address r.rows (report_address now (update, fresh) r).rows
unfolding report_address
report_address-IsPublished now update fresh r table own =
    report_found-IsPublished now fresh update.family update.address r table own

retire_found-lacks :
    (found : Option AddressRow) (now : ℕ) (r : Report) (id : String)
    → lacks_id id (retire_found found now r).rows ≡ lacks_id id r.rows
retire_found-lacks none now r id = refl
retire_found-lacks (some row) now r id = lacks_id-retire id row.id now r.rows

report_found-lacks :
    (now : ℕ) (fresh : String) (family : AddressFamily) (address : Option String)
    (now_current now_candidate : Option AddressRow) (r : Report) (id : String)
    → str_eq fresh id ≡ false
    → lacks_id id r.rows ≡ true
    → lacks_id id (report_found now fresh family address now_current now_candidate r).rows ≡ true
report_found-lacks now fresh family none now_current now_candidate r id apart h =
    retire_found-lacks now_current now (retire_found now_candidate now r) id
    ∙ retire_found-lacks now_candidate now r id
    ∙ h
report_found-lacks now fresh family (some address) now_current now_candidate r id apart h =
    elim (Bool-cases (is_at now_current address)) [
      | inl e ↦ rw e (retire_found-lacks now_candidate now r id ∙ h)
      | inr e ↦ elim (Bool-cases (is_at now_candidate address)) [
        | inl f ↦ rw (e, f) (ap (lacks_id id) (keep_candidate_rows now_candidate r) ∙ h)
        | inr f ↦ rw (e, f) (rw apart (retire_found-lacks now_candidate now r id ∙ h))
      ]
    ]

still_fresh :
    (now : ℕ) (update : DdnsAddressUpdate) (fresh : String)
    (updates : List (DdnsAddressUpdate × String)) (r : Report)
    → All (λ u. str_eq fresh u.1 ≡ false) updates
    → AreFresh updates r.rows
    → AreFresh updates (report_address now (update, fresh) r).rows
unfolding report_address
still_fresh now update fresh [] r apart h = tt
still_fresh now update fresh ((next, id) ∷ updates) r (own, apart) (lacks, distinct, h) = (
  report_found-lacks now fresh update.family update.address (find_live update.family current r.rows)
      (find_live update.family candidate r.rows) r id own lacks,
  distinct,
  still_fresh now update fresh updates r apart h,
)

report_addresses-publishes :
    (now : ℕ) (updates : List (DdnsAddressUpdate × String)) (r : Report)
    → IsTable r.rows
    → AreFresh updates r.rows
    → IsTable (report_addresses now updates r).rows
      × ((family : AddressFamily)
          → view family (report_addresses now updates r).rows
            ≡ publish_all family updates (view family r.rows))
unfolding report_addresses
report_addresses-publishes now [] r table fresh = (table, λ family. refl)
report_addresses-publishes now ((update, id) ∷ updates) r table (own, apart, fresh) =
    let after = report_address now (update, id) r in
    let (table1, views) = report_address-IsPublished now update id r table own in
    let (table2, rest) =
      report_addresses-publishes now updates after table1
        (still_fresh now update id updates r apart fresh) in
    (table2, λ family. rest family ∙ ap (publish_all family updates) (views family))

-- A heartbeat that is accepted keeps the table in order, and what it leaves published and under
-- check in a family is what its reports on that family mean, one after the other, on what was
-- there. The ids of new rows must be distinct and not in the table.
pub heartbeat_addresses-publishes :
    (is_deleting : String → Bool) (now revision : ℕ) (changed_at : Option ℕ)
    (updates : List (DdnsAddressUpdate × String)) (rows : List AddressRow)
    (outcome : HeartbeatOutcome)
    → IsTable rows
    → AreFresh updates rows
    → heartbeat_addresses is_deleting now revision changed_at updates rows ≡ ok outcome
    → IsTable outcome.report.rows
      × ((family : AddressFamily)
          → view family outcome.report.rows ≡ publish_all family updates (view family rows))
unfolding heartbeat_addresses
heartbeat_addresses-publishes is_deleting now revision changed_at updates rows outcome table fresh
      e =
    let (v, passed, rest) =
      first_returns (throw_if (reports_deleting is_deleting updates) address_deleting) _ e in
    subst
      (λ o.
        IsTable o.report.rows
        × ((family : AddressFamily)
            → view family o.report.rows ≡ publish_all family updates (view family rows)))
      (ok-injective
        (conclude_heartbeat now revision changed_at
          (report_addresses now updates (start_report rows)))
        outcome rest)
      (report_addresses-publishes now updates (start_report rows) table fresh)
