-- ===== src/Mandate/Hash.antt =====
-- The mandate, its EIP-712 struct hash, and the recovery of its signer.
use stablecoin_x402_gateway.Base.{
  ℕ, zero, suc, ◌-◌, String, Option, none, some, List, [], ◌∷◌, leb, nat_beq, length, if◌then◌else◌,
  ◌>>=◌,
}
use stablecoin_x402_gateway.Base.Int.{ℤ, abs}
use stablecoin_x402_gateway.Eth.{Eth}
use mathlib.Core.List.{map}

-- A nil `*big.Int` is `none`.
pub record Mandate : Type 0 where
  pub delegator : ℕ
  pub agent : ℕ
  pub max_amount_per_payment : Option ℤ
  pub allowed_payees : List ℕ
  pub allowed_resources : List String
  pub valid_after : Option ℤ
  pub valid_before : Option ℤ
  pub budget_amount : Option ℤ
  pub budget_window_seconds : Option ℤ
  pub max_payments_per_window : Option ℤ
  pub rate_window_seconds : Option ℤ
  pub mandate_id : ℕ

-- The 32-byte word of an integer; `x.Bytes()` drops the sign.
unfoldable pub u256 : Option ℤ → ℕ
u256 none = 0
u256 (some x) = abs x

mandate_domain_type : String
mandate_domain_type = "EIP712Domain(string name,string version,uint256 chainId)"

mandate_type : String
mandate_type =
    "Mandate(address delegator,address agent,uint256 maxAmountPerPayment,address[] allowedPayees,string[] allowedResources,uint256 validAfter,uint256 validBefore,uint256 budgetAmount,uint256 budgetWindowSeconds,uint256 maxPaymentsPerWindow,uint256 rateWindowSeconds,bytes32 mandateId)"

revocation_type : String
revocation_type = "Revocation(bytes32 mandateId)"

module _ (eth : Eth) where
  unfoldable pub mandate_domain_separator : Option ℤ → ℕ
  unfolding mandate_domain_type
  mandate_domain_separator chain_id = eth.keccak_words (
      eth.keccak_text mandate_domain_type
      ∷ eth.keccak_text "stablecoin-x402-gateway mandate"
      ∷ eth.keccak_text "1"
      ∷ u256 chain_id
      ∷ [])

  unfoldable pub struct_hash : Mandate → ℕ
  unfolding mandate_type
  struct_hash m =
      let payees = eth.keccak_words m.allowed_payees in
      let resources = eth.keccak_words (map eth.keccak_text m.allowed_resources) in
      eth.keccak_words (
        eth.keccak_text mandate_type
        ∷ m.delegator
        ∷ m.agent
        ∷ u256 m.max_amount_per_payment
        ∷ payees
        ∷ resources
        ∷ u256 m.valid_after
        ∷ u256 m.valid_before
        ∷ u256 m.budget_amount
        ∷ u256 m.budget_window_seconds
        ∷ u256 m.max_payments_per_window
        ∷ u256 m.rate_window_seconds
        ∷ m.mandate_id
        ∷ [])

  unfoldable pub revocation_struct_hash : ℕ → ℕ
  unfolding revocation_type
  revocation_struct_hash mandate_id =
      eth.keccak_words (eth.keccak_text revocation_type ∷ mandate_id ∷ [])

  -- `wallet.Digest`
  unfoldable pub digest : ℕ → ℕ → ℕ
  digest domain_separator hash = eth.keccak_prefixed domain_separator hash

  -- `if cp[64] >= 27 { cp[64] -= 27 }`: the byte at the index is lowered.
  unfoldable pub lower_v : ℕ → List ℕ → List ℕ
  lower_v i [] = []
  lower_v zero (v ∷ bs) = (if leb 27 v then v - 27 else v) ∷ bs
  lower_v (suc i) (b ∷ bs) = b ∷ lower_v i bs

  unfoldable pub recover712 : ℕ → ℕ → List ℕ → Option ℕ
  unfolding digest lower_v
  recover712 domain_separator hash sig =
      if nat_beq (length sig) 65
      then eth.sig_to_address (digest domain_separator hash) (lower_v 64 sig)
      else none

  -- The signer, if it is the delegator.
  unfoldable pub verify_mandate : Mandate → List ℕ → Option ℤ → Option ℕ
  verify_mandate m sig chain_id =
      recover712 (mandate_domain_separator chain_id) (struct_hash m) sig >>= λ signer.
      if nat_beq signer m.delegator then some signer else none

  unfoldable pub verify_revocation : ℕ → List ℕ → Option ℤ → Option ℕ
  verify_revocation mandate_id sig chain_id =
      recover712 (mandate_domain_separator chain_id) (revocation_struct_hash mandate_id) sig
