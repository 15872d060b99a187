-- ===== src/Eth.antt =====
-- What the program takes from go-ethereum (common, crypto): a parameter of the model. Addresses and
-- 32-byte values are numbers, byte strings are lists of numbers.
use stablecoin_x402_gateway.Base.{ℕ, String, Bool, Option, List}
use stablecoin_x402_gateway.Base.Hex.{bytes32_of}

-- The hash inputs of the program are 32-byte words, whole texts, or 0x19 0x01 before two words.
pub record Eth : Type 0 where
  pub hex_to_address : String → ℕ
  pub is_hex_address : String → Bool
  pub address_hex : ℕ → String
  pub hash_hex : ℕ → String
  pub hex_to_hash : String → ℕ
  pub from_hex : String → List ℕ
  pub keccak_words : List ℕ → ℕ
  pub keccak_text : String → ℕ
  pub keccak_prefixed : ℕ → ℕ → ℕ
  pub sig_to_address : ℕ → List ℕ → Option ℕ

-- `parseBytes32`
unfoldable pub parse_bytes32 : Eth → String → Option ℕ
unfolding bytes32_of
parse_bytes32 eth s = bytes32_of (eth.from_hex s)
