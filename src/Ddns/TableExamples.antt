-- ===== src/Ddns/TableExamples.antt =====
-- A heartbeat that reports another IPv4 address and withdraws the IPv6 one.
use master_dns.Common.{◌≡◌, refl, false, none, some, String, List, [], ◌∷◌}
use master_dns.Strategy.Types.{AddressFamily, v4, v6}
use master_dns.Ddns.Reports.{DdnsAddressUpdate}
use master_dns.Ddns.Addresses.{
  current, AddressRow, start_report, report_addresses, report_address, conclude_heartbeat,
  heartbeat_addresses,
}
use master_dns.Ddns.Table.{IsTable}
use master_dns.Ddns.Publishing.{view}
use master_dns.Ddns.Beating.{publish_all, heartbeat_addresses-publishes}

abbrev row : String → AddressFamily → String → AddressRow
row id family address = record {
  id = id;
  family = family;
  address = address;
  state = current;
  observed_at = 1;
  replaced_at = none;
}

abbrev rows : List AddressRow
rows = row "a" v4 "203.0.113.7" ∷ row "b" v6 "2001:db8::7" ∷ []

abbrev updates : List (DdnsAddressUpdate × String)
updates =
    (record { family = v4; address = some "203.0.113.8" }, "c")
    ∷ (record { family = v6; address = none }, "d")
    ∷ []

moved :
    view v4 (report_addresses 5 updates (start_report rows)).rows
    ≡ (some "203.0.113.7", some "203.0.113.8")
unfolding report_addresses report_address
moved = refl

heartbeat_addresses-publishes_example :
    let after = report_addresses 5 updates (start_report rows) in
    IsTable after.rows
    × ((family : AddressFamily)
        → view family after.rows ≡ publish_all family updates (view family rows))
unfolding heartbeat_addresses
heartbeat_addresses-publishes_example =
    heartbeat_addresses-publishes (λ address. false) 5 3 none updates rows
      (conclude_heartbeat 5 3 none (report_addresses 5 updates (start_report rows)))
      (refl, (λ l. refl), (refl, (λ l. refl), tt)) (refl, (refl, tt), (refl, tt, tt)) refl
