-- ===== src/Pools/Examples.antt =====
-- A pool of one cloud endpoint and one binding.
use master_dns.Common.{◌≡◌, refl, true, Option, some, [], ◌∷◌, String, All}
use master_dns.Health.{unknown, healthy}
use master_dns.Strategy.Types.{v4}
use master_dns.Pools.Projection.{enabled, summarize_health, project_pool_health}
use master_dns.Pools.Rows.{
  EndpointRow, AddressRow, BindingRow, LinkRow, PoolRows, CloudTarget, PoolRow, pool_input,
  with_pool_address_availability, refresh_pool_health,
}
use master_dns.Pools.Healthy.{IsServed}
use master_dns.Pools.Confirmed.{IsBacked, refresh_pool_health-AreBacked}

abbrev seen_at : String → String → Option CloudTarget
seen_at address slot_id =
    some (record { current_address_observed = true; current_address = some address })

abbrev one_endpoint : EndpointRow
one_endpoint = record { id = "e1"; pool_id = "p1"; lifecycle = "enabled" }

abbrev one_address : AddressRow
one_address = record {
  id = "a1";
  endpoint_id = "e1";
  pool_id = "p1";
  family = v4;
  source = "cloud";
  address = "192.0.2.1";
  state = "current";
  health_state = healthy;
}

abbrev one_binding : BindingRow
one_binding = record { id = "b1"; pool_id = "p1"; record_type = "A" }

abbrev one_link : LinkRow
one_link = record { endpoint_id = "e1"; family = v4; slot_id = "s1" }

abbrev rows : PoolRows
rows = record {
  endpoints = one_endpoint ∷ [];
  addresses = one_address ∷ [];
  bindings = one_binding ∷ [];
  health = [];
  checks = [];
  links = one_link ∷ [];
}

abbrev pool : PoolRow
pool = record { id = "p1"; state = unknown; updated_at = 0 }

is_healthy_pool : (refresh_pool_health (seen_at "192.0.2.1") rows 5 pool).state ≡ healthy
unfolding refresh_pool_health project_pool_health with_pool_address_availability summarize_health
is_healthy_pool = refl

-- The inventory has another address in the slot.
is_unknown_pool : (refresh_pool_health (seen_at "192.0.2.9") rows 5 pool).state ≡ unknown
unfolding refresh_pool_health project_pool_health with_pool_address_availability summarize_health
is_unknown_pool = refl

refresh_pool_health-AreBacked_example :
    All
      (λ b.
        IsServed (pool_input (seen_at "192.0.2.1") rows "p1") b
        × All
            (IsBacked (seen_at "192.0.2.1") rows "p1" b)
            (enabled (pool_input (seen_at "192.0.2.1") rows "p1")))
      (pool_input (seen_at "192.0.2.1") rows "p1").bindings
refresh_pool_health-AreBacked_example =
    refresh_pool_health-AreBacked (seen_at "192.0.2.1") rows 5 pool (λ e. cc) (tt, tt)
      is_healthy_pool
