-- ===== src/Cloud.antt =====
-- packages/cloud-providers/src/rotation-step.ts, aws-capabilities.ts and aws-rotation-plan.ts: the
-- steps by which an address of AWS is rotated.
pub mod Types
pub mod Steps
pub mod Capabilities
pub mod Plan
pub mod Starting
pub mod Order
mod Examples
