-- ===== src/Wallet.antt =====
-- The payer's wallet, wallet/wallet.go: EIP-3009 authorizations, their hashes and signatures.
use stablecoin_x402_gateway.Base.{
  ℕ, zero, suc, ◌+◌, ◌%◌, String, Option, none, some, List, [], ◌∷◌, nat_beq, ltb, length,
  if◌then◌else◌, ◌>>=◌,
}
use stablecoin_x402_gateway.Base.Int.{ℤ}
use stablecoin_x402_gateway.Base.Hex.{from_bytes}
use stablecoin_x402_gateway.Eth.{Eth}
pub mod Signing
use stablecoin_x402_gateway.Mandate.{u256, digest, recover712}

pub record Authorization : Type 0 where
  pub sender : ℕ
  pub recipient : ℕ
  pub value : ℤ
  pub valid_after : ℤ
  pub valid_before : ℤ
  pub nonce : ℕ

transfer_type : String
transfer_type =
    "TransferWithAuthorization(address from,address to,uint256 value,uint256 validAfter,uint256 validBefore,bytes32 nonce)"

receive_type : String
receive_type =
    "ReceiveWithAuthorization(address from,address to,uint256 value,uint256 validAfter,uint256 validBefore,bytes32 nonce)"

-- The key is a parameter: `crypto.Sign` gives 65 bytes, the last of them 0 or 1.
pub record Wallet : Type 0 where
  pub address : ℕ
  pub sign : ℕ → Option (List ℕ)

-- `sig[64] += 27`: the byte at the index is raised.
unfoldable pub raise_v : ℕ → List ℕ → List ℕ
raise_v i [] = []
raise_v zero (v ∷ bs) = ((v + 27) % 256) ∷ bs
raise_v (suc i) (b ∷ bs) = b ∷ raise_v i bs

unfoldable pub take : ℕ → List ℕ → List ℕ
take zero bs = []
take (suc n) [] = []
take (suc n) (b ∷ bs) = b ∷ take n bs

unfoldable pub drop : ℕ → List ℕ → List ℕ
drop zero bs = bs
drop (suc n) [] = []
drop (suc n) (b ∷ bs) = drop n bs

pub record SplitParts : Type 0 where
  pub v : ℕ
  pub r : ℕ
  pub s : ℕ

-- `SplitSignature`: the contract's arguments.
unfoldable pub split_signature : List ℕ → Option SplitParts
unfolding take drop
split_signature sig =
    let v = from_bytes 0 (drop 64 sig) in
    if nat_beq (length sig) 65
    then some (record {
      v = if ltb v 27 then v + 27 else v;
      r = from_bytes 0 (take 32 sig);
      s = from_bytes 0 (take 32 (drop 32 sig));
    })
    else none

module _ (eth : Eth) where
  unfoldable pub struct_hash_with : String → Authorization → ℕ
  struct_hash_with type_text a = eth.keccak_words (
      eth.keccak_text type_text
      ∷ a.sender
      ∷ a.recipient
      ∷ u256 (some a.value)
      ∷ u256 (some a.valid_after)
      ∷ u256 (some a.valid_before)
      ∷ a.nonce
      ∷ [])

  -- `StructHash` and `ReceiveStructHash`
  unfoldable pub transfer_struct_hash : Authorization → ℕ
  unfolding struct_hash_with transfer_type
  transfer_struct_hash a = struct_hash_with transfer_type a

  unfoldable pub receive_struct_hash : Authorization → ℕ
  unfolding struct_hash_with receive_type
  receive_struct_hash a = struct_hash_with receive_type a

  unfoldable pub bound_nonce : ℕ → String → ℕ
  bound_nonce seed resource = eth.keccak_words (seed ∷ eth.keccak_text resource ∷ [])

  -- `recoverStruct` has the body of `recover712`.
  unfoldable pub recover_struct : ℕ → ℕ → List ℕ → Option ℕ
  recover_struct domain_separator hash sig = recover712 eth domain_separator hash sig

  unfoldable pub recover_signer : ℕ → Authorization → List ℕ → Option ℕ
  recover_signer domain_separator a sig =
      recover_struct domain_separator (transfer_struct_hash a) sig

  unfoldable pub recover_receive_signer : ℕ → Authorization → List ℕ → Option ℕ
  recover_receive_signer domain_separator a sig =
      recover_struct domain_separator (receive_struct_hash a) sig

  unfoldable pub sign_struct : Wallet → ℕ → Authorization → ℕ → Option (List ℕ)
  unfolding raise_v
  sign_struct w domain_separator a hash =
      if nat_beq a.sender w.address
      then (w.sign (digest eth domain_separator hash) >>= λ sig. some (raise_v 64 sig))
      else none

  unfoldable pub sign_authorization : Wallet → ℕ → Authorization → Option (List ℕ)
  unfolding sign_struct
  sign_authorization w domain_separator a =
      sign_struct w domain_separator a (transfer_struct_hash a)

  unfoldable pub sign_receive_authorization : Wallet → ℕ → Authorization → Option (List ℕ)
  unfolding sign_struct
  sign_receive_authorization w domain_separator a =
      sign_struct w domain_separator a (receive_struct_hash a)
