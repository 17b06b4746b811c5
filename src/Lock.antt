-- ===== src/Lock.antt =====
-- packages/automation/src/dns-zone-lock.ts: a lease on a key of Redis, renewed while an action
-- runs, that keeps two workers from writing to one DNS zone.
pub mod Options
pub mod Redis
pub mod Client
pub mod World
pub mod Exclusion
pub mod Defaults
mod Examples
