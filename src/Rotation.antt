-- ===== src/Rotation.antt =====
-- packages/automation/src/rotation-machine.ts: the next action of an address rotation.
pub mod Snapshot
pub mod Gates
pub mod Machine
pub mod Writes
pub mod Steps
pub mod Attempts
pub mod Publishing
pub mod Cleaning
mod Examples
