-- ===== src/Limits.antt =====
-- packages/contracts/src/cloud-rotation-limits.ts and packages/db/src/cloud-rotation-limits.ts:
-- how many writes a rotation may send to a cloud service.
pub mod Rules
pub mod Buckets
pub mod Admission
pub mod Throttle
pub mod Settings
pub mod Status
pub mod Shown
pub mod Repricing
pub mod Keys
pub mod Reserve
pub mod Rate
pub mod Cooldown
mod Examples
