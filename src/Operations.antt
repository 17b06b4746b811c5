-- ===== src/Operations.antt =====
-- apps/worker/src/operations/operation.processor.ts: the worker that carries out the changes of DNS
-- records that an operation lists.
pub mod Types
pub mod Errors
pub mod Tables
pub mod Cancel
pub mod Remote
pub mod Search
pub mod Writing
pub mod Execute
pub mod Transaction
pub mod Finalize
pub mod Process
pub mod Finishing
pub mod Execution
pub mod Pass
pub mod Conclusion
pub mod Lifecycle
pub mod Outcome
mod Examples
