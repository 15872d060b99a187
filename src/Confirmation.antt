-- ===== src/Confirmation.antt =====
-- x402/confirmation.go: a delegator's signed approval of one payment.
use stablecoin_x402_gateway.Base.{ℕ, String, Option, some, List, [], ◌∷◌, ◌>>=◌}
use stablecoin_x402_gateway.Base.Int.{ℤ}
use stablecoin_x402_gateway.Base.Text.{set_string}
use stablecoin_x402_gateway.Eth.{Eth, parse_bytes32}
use stablecoin_x402_gateway.Wire.{ConfirmationJson}
use stablecoin_x402_gateway.Mandate.{u256, recover712, mandate_domain_separator}

pub record Confirmation : Type 0 where
  pub mandate_id : ℕ
  pub authorization_nonce : ℕ
  pub amount : Option ℤ
  pub resource : String
  pub valid_before : Option ℤ

confirmation_type : String
confirmation_type =
    "Confirmation(bytes32 mandateId,bytes32 authorizationNonce,uint256 amount,string resource,uint256 validBefore)"

module _ (eth : Eth) where
  confirmation_struct_hash : Confirmation → ℕ
  unfolding confirmation_type
  confirmation_struct_hash c = eth.keccak_words (
      eth.keccak_text confirmation_type
      ∷ c.mandate_id
      ∷ c.authorization_nonce
      ∷ u256 c.amount
      ∷ eth.keccak_text c.resource
      ∷ u256 c.valid_before
      ∷ [])

  -- The signer; the caller compares it with the delegator.
  unfoldable pub verify_confirmation : Confirmation → List ℕ → Option ℤ → Option ℕ
  unfolding confirmation_struct_hash
  verify_confirmation c sig chain_id =
      recover712 eth (mandate_domain_separator eth chain_id) (confirmation_struct_hash c) sig

  unfoldable pub to_confirmation : ConfirmationJson → Option Confirmation
  to_confirmation j = do
    id ← parse_bytes32 eth j.mandate_id
    nonce ← parse_bytes32 eth j.authorization_nonce
    amount ← set_string j.amount
    before ← set_string j.valid_before
    some (record {
      mandate_id = id;
      authorization_nonce = nonce;
      amount = some amount;
      resource = j.resource;
      valid_before = some before;
    })
