-- ===== src/Pools.antt =====
-- packages/db/src/pool-health.ts: the availability of a pool, projected from the health of its
-- addresses.
pub mod Projection
pub mod Rows
pub mod Healthy
pub mod Confirmed
mod Examples
