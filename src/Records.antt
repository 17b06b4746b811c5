-- ===== src/Records.antt =====
-- packages/providers/src/record-match.ts and record-hash.ts: whether a provider's record is the one
-- that is wanted.
pub mod Values
pub mod Match
pub mod Self
pub mod Cloudflare
pub mod Sent
mod Examples
