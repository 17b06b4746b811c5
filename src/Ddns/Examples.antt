-- ===== src/Ddns/Examples.antt =====
-- The theorems on DDNS agents at concrete requests, and tests.
use master_dns.Common.{
  ℕ, ◌≡◌, ◌≤◌, ◌<◌, ◌+◌, ◌↔◌, refl, none, some, String, List, [], ◌∷◌, true, false, ok,
  if◌then◌else◌,
}
use master_dns.Strategy.Types.{v4, v6}
use master_dns.Strategy.Candidates.{same_family}
use master_dns.Ddns.Tokens.{runtime_token_matches, rotate_runtime_token}
use master_dns.Ddns.Agent.{
  Agent, ddns, put_install_token, exchanged, create_install_token, exchange, disable, revoke,
}
use master_dns.Ddns.Requests.{
  Request, create, exchange_install, beat, Heartbeat, serve, serve_all, seen_alive, heartbeat,
  locked_row,
}
use master_dns.Ddns.Reports.{
  HeartbeatAddresses, resolve_ddns_address_updates, infer_address, family_of,
}
use master_dns.Ddns.Resolving.{
  resolve_ddns_address_updates-merges, update_for, field_for, with_default, count_family,
}
use master_dns.Ddns.Grace.{rotate_runtime_token-grace}
use master_dns.Ddns.Expulsion.{Refuses, revoke-IsFinal, exchange-expels}
use master_dns.Ddns.Installation.{exchange-once}

abbrev offer : (token : String) (now : ℕ) → Request
offer token now = create (some ddns) (some ddns) true token 3600 now

abbrev swap : (install runtime : String) (now : ℕ) → Request
swap install runtime now = exchange_install true ddns install runtime now

abbrev offered : Agent
offered = put_install_token none "install-1" 3600000

abbrev first_agent : Agent
first_agent = exchanged offered "runtime-1" 1000

abbrev alive : Heartbeat
alive = record {
  hostname = some "edge";
  agent_version = none;
  has_report = true;
  has_conflict = false;
}

abbrev all_requests : List Request
all_requests = offer "install-2" 2000 ∷ swap "install-2" "runtime-2" 3000 ∷ []

second_token_is_accepted :
    serve
      (serve_all (some first_agent) all_requests)
      (beat (some "runtime-1") (locked_row ddns (some first_agent)) ddns alive 4000 4001)
    ≡ ok (
        some (
          seen_alive
            (exchanged (put_install_token (some first_agent) "install-2" 3602000) "runtime-2" 3000)
            alive
            4000))
unfolding serve serve_all create_install_token exchange heartbeat seen_alive put_install_token
    exchanged rotate_runtime_token runtime_token_matches
second_token_is_accepted = refl

exchange-once_example : ¬ (
    serve (serve_all (some first_agent) all_requests) (swap "install-1" "runtime-3" 5000) ≡ ok none)
unfolding serve exchange put_install_token
exchange-once_example =
    exchange-once (some offered) (some first_agent) none all_requests true true ddns ddns
      "install-1" "runtime-1" "runtime-3" 1000 5000 refl (refl, (tt, tt))

revoke-IsFinal_example :
    Refuses (serve_all (some (disable first_agent 1500)) all_requests) "runtime-1"
unfolding serve revoke
revoke-IsFinal_example =
    revoke-IsFinal "runtime-1" (some first_agent) (some ddns) 1500 (some (disable first_agent 1500))
      all_requests refl (tt, (refl, tt))

abbrev second_agent : Agent
second_agent = exchanged (put_install_token (some first_agent) "install-2" 3602000) "runtime-2" 3000

abbrev third_agent : Agent
third_agent = exchanged (put_install_token (some second_agent) "install-3" 3604000) "runtime-3" 5000

exchange-expels_example :
    Refuses (serve_all (some third_agent) (offer "install-4" 6000 ∷ [])) "runtime-1"
unfolding serve serve_all create_install_token exchange put_install_token exchanged
exchange-expels_example =
    exchange-expels "runtime-1" (some (put_install_token (some first_agent) "install-2" 3602000))
      (offer "install-3" 4000 ∷ []) (offer "install-4" 6000 ∷ []) true true ddns ddns "install-2"
      "install-3" "runtime-2" "runtime-3" 3000 5000 (some second_agent) (some third_agent) refl refl
      refl (tt, tt) refl (tt, tt)

rotate_runtime_token-grace_example :
    (runtime_token_matches (rotate_runtime_token (some "a") "b" 1000) "b" 600999 ≡ true)
    × ((runtime_token_matches (rotate_runtime_token (some "a") "b" 1000) "a" 600999 ≡ true)
        ↔ (600999 < 1000 + 600000))
    × (runtime_token_matches (rotate_runtime_token (some "a") "b" 1000) "c" 600999 ≡ false)
rotate_runtime_token-grace_example =
    rotate_runtime_token-grace "a" "b" "c" 1000 600999 refl refl refl refl

abbrev body : HeartbeatAddresses
body = record { ipv4_field = some none; ipv6_field = none }

body_takes_source :
    resolve_ddns_address_updates body (some "192.0.2.7")
    ≡ (record { family = v4; address = some "192.0.2.7" } ∷ [])
unfolding resolve_ddns_address_updates infer_address
body_takes_source = refl

resolve_ddns_address_updates-merges_example :
    (update_for v6 (resolve_ddns_address_updates body none) ≡ field_for v6 body)
    × (update_for v6 (resolve_ddns_address_updates body (some "2001:db8::7")) ≡ (
        if same_family v6 (family_of "2001:db8::7")
        then with_default (field_for v6 body) "2001:db8::7"
        else field_for v6 body))
    × (count_family v6 (resolve_ddns_address_updates body none) ≤ 1)
    × (count_family v6 (resolve_ddns_address_updates body (some "2001:db8::7")) ≤ 1)
resolve_ddns_address_updates-merges_example =
    resolve_ddns_address_updates-merges v6 body "2001:db8::7" refl
