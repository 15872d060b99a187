-- ===== src/Policy.antt =====
-- The accept policies of x402: policy.go, policy_table.go, policy_identity.go,
-- policy_eligibility.go, policy_mandate.go, history.go.
pub mod Context
pub mod History
pub mod Table
pub mod Readers
pub mod State
pub mod Entitled
pub mod Delegated
pub mod Chain
pub mod Laws
