-- ===== src/Policy/Laws.antt =====
-- What the policies decide.
pub mod Tables
pub mod Mandates
pub mod Reservations
pub mod Chains
pub mod Granted
pub mod Negated
