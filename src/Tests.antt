-- ===== src/Tests.antt =====
-- The operations on concrete databases: an engine without faults, and what the theorems give there.
mod Fixtures
mod Ready
mod Codec
mod Account
mod Ledger
mod Auth
mod Tokens
mod Core
mod Bank
mod Server
mod Client
mod Gateway
mod Reports
mod Life
mod Payout
mod Suite
