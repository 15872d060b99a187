-- ===== src/Gateway.antt =====
-- The gateway of x402/gateway.go: settlement, deferred payments, restart, and what they keep.
pub mod Defs
pub mod Decisions
pub mod Settle
pub mod Deferred
pub mod Receipts
pub mod Restart
pub mod Preserve
pub mod Calls
pub mod Approval
pub mod Replay
pub mod Refunds
pub mod Binding
pub mod Races
