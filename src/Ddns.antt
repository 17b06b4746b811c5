-- ===== src/Ddns.antt =====
-- apps/api/src/modules/ddns: the tokens of a DDNS agent and the addresses that it reports.
pub mod Tokens
pub mod Agent
pub mod Requests
pub mod Reports
pub mod Addresses
pub mod Table
pub mod Publishing
pub mod Beating
pub mod Resolving
pub mod Writes
pub mod Grace
pub mod Expulsion
pub mod Installation
mod Examples
mod TableExamples
