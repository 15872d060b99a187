-- ===== src/Tests.antt =====
-- Runs on concrete payments, and the theorems at inputs that meet their hypotheses.
mod Sample
mod Accounts
mod Policies
mod Tables
mod Ledgers
mod Journals
mod Reserves
mod Honest
mod Payments
mod Shop
mod Requests
mod Sessions
mod Receipts
mod Remotes
mod Redemptions
