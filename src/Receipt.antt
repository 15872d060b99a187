-- ===== src/Receipt.antt =====
-- Settlement receipts: x402/receipt.go. The receipt key is a wallet's key.
use Prim.Native.Char.{code}
use stablecoin_x402_gateway.Base.{
  ℕ, String, Bool, true, false, Option, none, some, List, [], ◌∷◌, nat_beq, string_eq, ◌==◌,
  if◌then◌else◌, ◌>>=◌,
}
use stablecoin_x402_gateway.Base.Int.{ℤ}
use stablecoin_x402_gateway.Base.Text.{set_string}
use stablecoin_x402_gateway.Base.Decimal.{integer_text}
use stablecoin_x402_gateway.Base.Hex.{bytes32_text, read_hex32}
use stablecoin_x402_gateway.Eth.{Eth}
use stablecoin_x402_gateway.Mandate.{u256, digest, recover712}
use stablecoin_x402_gateway.Journal.{ReceiptJson}
use stablecoin_x402_gateway.Wallet.{Wallet, raise_v}
pub mod Wire

pub record Receipt : Type 0 where
  pub receipt_id : ℕ
  pub network : String
  pub resource : String
  pub payer : ℕ
  pub pay_to : ℕ
  pub amount : Option ℤ
  pub settlement_tx : ℕ
  pub delivery_tx : ℕ
  pub mandate_id : ℕ
  pub delegator : ℕ
  pub issued_at : ℤ

receipt_domain_type : String
receipt_domain_type = "EIP712Domain(string name,string version,uint256 chainId)"

receipt_type : String
receipt_type =
    "Receipt(bytes32 receiptId,string network,string resource,address payer,address payTo,uint256 amount,bytes32 settlementTx,bytes32 deliveryTx,bytes32 mandateId,address delegator,uint256 issuedAt)"

-- `strings.Cut(s, ":")`: what follows the first colon.
unfoldable pub after_colon : String → Option String
after_colon String.[] = none
after_colon (String.◌∷◌ c s) =
    let rest = after_colon s in if nat_beq (code c) b':' then some s else rest

unfoldable pub chain_id_from_network : String → Option ℤ
unfolding after_colon
chain_id_from_network network = after_colon network >>= λ id. set_string id

-- `bigString`
unfoldable pub big_string : Option ℤ → String
big_string none = "0"
big_string (some a) = integer_text a

module _ (eth : Eth) where
  unfoldable pub receipt_domain_separator : Option ℤ → ℕ
  unfolding receipt_domain_type
  receipt_domain_separator chain_id = eth.keccak_words (
      eth.keccak_text receipt_domain_type
      ∷ eth.keccak_text "stablecoin-x402-gateway receipt"
      ∷ eth.keccak_text "1"
      ∷ u256 chain_id
      ∷ [])

  unfoldable pub receipt_struct_hash : Receipt → ℕ
  unfolding receipt_type
  receipt_struct_hash r = eth.keccak_words (
      eth.keccak_text receipt_type
      ∷ r.receipt_id
      ∷ eth.keccak_text r.network
      ∷ eth.keccak_text r.resource
      ∷ r.payer
      ∷ r.pay_to
      ∷ u256 r.amount
      ∷ r.settlement_tx
      ∷ r.delivery_tx
      ∷ r.mandate_id
      ∷ r.delegator
      ∷ u256 (some r.issued_at)
      ∷ [])

  unfoldable pub sign_receipt : Wallet → Receipt → Option (List ℕ)
  unfolding chain_id_from_network receipt_domain_separator receipt_struct_hash raise_v
  sign_receipt key r = chain_id_from_network r.network >>= λ chain_id.
      key.sign (digest eth (receipt_domain_separator (some chain_id)) (receipt_struct_hash r))
      >>= λ sig. some (raise_v 64 sig)

  unfoldable pub verify_receipt : Receipt → List ℕ → Option ℕ
  unfolding chain_id_from_network receipt_domain_separator receipt_struct_hash
  verify_receipt r sig = chain_id_from_network r.network >>= λ chain_id.
      recover712 eth (receipt_domain_separator (some chain_id)) (receipt_struct_hash r) sig

  -- A field that is zero stays empty.
  abbrev pub text_unless_zero : ℕ → String → String
  text_unless_zero n text = if nat_beq n 0 then "" else text

  unfoldable pub to_json : Receipt → ReceiptJson
  unfolding big_string bytes32_text
  to_json r = record {
    receipt_id = bytes32_text r.receipt_id;
    network = r.network;
    resource = r.resource;
    payer = eth.address_hex r.payer;
    pay_to = eth.address_hex r.pay_to;
    amount = big_string r.amount;
    settlement_tx = eth.hash_hex r.settlement_tx;
    delivery_tx = text_unless_zero r.delivery_tx (eth.hash_hex r.delivery_tx);
    mandate_id = text_unless_zero r.mandate_id (bytes32_text r.mandate_id);
    delegator = text_unless_zero r.delegator (eth.address_hex r.delegator);
    issued_at = r.issued_at;
  }

  abbrev pub zero_if_empty : String → ℕ → ℕ
  zero_if_empty text n = if text == "" then 0 else n

  abbrev pub mandate_id_of : String → Option ℕ
  mandate_id_of text = if text == "" then some 0 else read_hex32 text

  unfoldable pub to_receipt : ReceiptJson → Option Receipt
  unfolding set_string read_hex32
  to_receipt j = set_string j.amount >>= λ amount. read_hex32 j.receipt_id >>= λ id.
      mandate_id_of j.mandate_id >>= λ mandate_id. some (record {
        receipt_id = id;
        network = j.network;
        resource = j.resource;
        payer = eth.hex_to_address j.payer;
        pay_to = eth.hex_to_address j.pay_to;
        amount = some amount;
        settlement_tx = eth.hex_to_hash j.settlement_tx;
        delivery_tx = zero_if_empty j.delivery_tx (eth.hex_to_hash j.delivery_tx);
        mandate_id = mandate_id;
        delegator = zero_if_empty j.delegator (eth.hex_to_address j.delegator);
        issued_at = j.issued_at;
      })
