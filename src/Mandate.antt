-- ===== src/Mandate.antt =====
-- x402/mandate.go: mandates, their EIP-712 hash, their signature, their scope.
mod Hash
mod Parse
mod Scope
pub mod Negation
pub use Hash.{Mandate}
unfoldable pub use Hash.{
  lower_v, u256, struct_hash, mandate_domain_separator, revocation_struct_hash, recover712,
  verify_mandate, verify_revocation, digest,
}
unfoldable pub use Parse.{to_mandate}
unfoldable pub use Scope.{
  contains_address, prefix_allowed, within_scope, exceeds_cap, payee_allowed, resource_allowed,
}
