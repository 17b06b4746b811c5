-- ===== src/Incidents.antt =====
-- packages/db/src/rotation-incidents.ts, rotation-termination.ts and the checks on a rotation's
-- context: how an incident is opened, resumed and terminated.
pub mod Types
pub mod Policy
pub mod Evidence
pub mod Opening
pub mod Resuming
pub mod Terminating
pub mod Additions
pub mod Changes
pub mod Single
pub mod Cancelling
pub mod Stopping
pub mod Ending
pub mod Examples
