-- ===== src/Schedules.antt =====
-- packages/db/src/rotation-schedules.ts: the schedule by which a slot's address is rotated.
pub mod Types
pub mod Operations
pub mod History
pub mod Pausing
pub mod Resuming
pub mod Idle
pub mod Revisions
mod Examples
