-- ===== src/Receipt/Wire.antt =====
-- A receipt through its wire form, and its signature: x402/receipt.go.
use stablecoin_x402_gateway.Base.{
  ℕ, ◌^◌, ◌<◌, ◌≡◌, ◌≢◌, refl, sym, ap, ◌∙◌, String, some, bind-some, List, nat_beq, nat_beq_iff,
  string_eq, beq_ne, ◌>>=◌, Bool-cases, inl, inr,
}
use stablecoin_x402_gateway.Base.Int.{ℤ}
use stablecoin_x402_gateway.Base.Text.{set_string}
use stablecoin_x402_gateway.Base.Decimal.{set_string-integer_text}
use stablecoin_x402_gateway.Base.Hex.{bytes32_text, read_hex32-bytes32_text, bytes32_text-nonempty}
use stablecoin_x402_gateway.Eth.{Eth}
use stablecoin_x402_gateway.Mandate.{digest}
use stablecoin_x402_gateway.Wallet.{Wallet, recover_struct}
use stablecoin_x402_gateway.Wallet.Signing.{Recovers, signed-Verifies}
use stablecoin_x402_gateway.Receipt.{
  Receipt, big_string, chain_id_from_network, receipt_domain_separator, receipt_struct_hash,
  sign_receipt, verify_receipt, text_unless_zero, zero_if_empty, mandate_id_of, to_json, to_receipt,
}

-- go-ethereum: the texts of addresses, of 20 bytes, and of hashes, of 32 bytes, are not empty and are
-- read back.
pub record ReadsTexts (eth : Eth) : Type 0 where
  pub address : (a : ℕ) → a < 2 ^ 160 → eth.hex_to_address (eth.address_hex a) ≡ a
  pub address_text : (a : ℕ) → eth.address_hex a ≢ ""
  pub hash : (h : ℕ) → h < 2 ^ 256 → eth.hex_to_hash (eth.hash_hex h) ≡ h
  pub hash_text : (h : ℕ) → eth.hash_hex h ≢ ""

-- The fields of a receipt have their widths: 20 bytes for an address, 32 for a hash or an id.
pub record HasWidths (r : Receipt) : Type 0 where
  pub receipt_id : r.receipt_id < 2 ^ 256
  pub payer : r.payer < 2 ^ 160
  pub pay_to : r.pay_to < 2 ^ 160
  pub settlement_tx : r.settlement_tx < 2 ^ 256
  pub delivery_tx : r.delivery_tx < 2 ^ 256
  pub mandate_id : r.mandate_id < 2 ^ 256
  pub delegator : r.delegator < 2 ^ 160

zero_if_empty-text :
    (eth : Eth) (n : ℕ) (text : String) (back : String → ℕ)
    → text ≢ ""
    → back text ≡ n
    → zero_if_empty eth (text_unless_zero eth n text) (back (text_unless_zero eth n text)) ≡ n
zero_if_empty-text eth n text back named reads = elim (Bool-cases (nat_beq n 0)) [
  | inl absent ↦ rw absent (sym ((nat_beq_iff n 0).0 absent))
  | inr present ↦ rw (present, beq_ne text "" named) reads
]

mandate_id_of-text :
    (eth : Eth) (n : ℕ)
    → n < 2 ^ 256
    → mandate_id_of eth (text_unless_zero eth n (bytes32_text n)) ≡ some n
mandate_id_of-text eth n fits = elim (Bool-cases (nat_beq n 0)) [
  | inl absent ↦ rw absent (ap some (sym ((nat_beq_iff n 0).0 absent)))
  | inr present ↦ rw (present, bytes32_text-nonempty n) (read_hex32-bytes32_text n fits)
]

to_receipt-to_json :
    (eth : Eth) (r : Receipt) (a : ℤ)
    → ReadsTexts eth
    → r.amount ≡ some a
    → HasWidths r
    → to_receipt eth (to_json eth r) ≡ some r
unfolding to_receipt to_json big_string
to_receipt-to_json eth r a reads amount fits =
    let same : set_string (big_string r.amount) ≡ some a =
      ap (λ o. set_string (big_string o)) amount ∙ set_string-integer_text a in
    rw
      (
        to_receipt,
        to_json,
        same,
        read_hex32-bytes32_text r.receipt_id fits.receipt_id,
        mandate_id_of-text eth r.mandate_id fits.mandate_id,
        reads.address r.payer fits.payer,
        reads.address r.pay_to fits.pay_to,
        reads.hash r.settlement_tx fits.settlement_tx,
        zero_if_empty-text eth r.delivery_tx (eth.hash_hex r.delivery_tx) eth.hex_to_hash
            (reads.hash_text r.delivery_tx) (reads.hash r.delivery_tx fits.delivery_tx),
        zero_if_empty-text eth r.delegator (eth.address_hex r.delegator) eth.hex_to_address
            (reads.address_text r.delegator) (reads.address r.delegator fits.delegator),
      )
      (ap (λ x. some (record r { amount = x })) (sym amount))

sign_receipt-verified :
    (eth : Eth) (key : Wallet) (r : Receipt) (sig : List ℕ)
    → Recovers eth key
    → sign_receipt eth key r ≡ some sig
    → verify_receipt eth r sig ≡ some key.address
unfolding sign_receipt verify_receipt recover_struct
sign_receipt-verified eth key r sig lib signed =
    let (chain_id, has_chain, rest) = bind-some (chain_id_from_network r.network) _ sig signed in
    let domain = receipt_domain_separator eth (some chain_id) in
    let hash = receipt_struct_hash eth r in
    let good =
      signed-Verifies eth key domain hash (key.sign (digest eth domain hash)) sig lib refl rest in
    rw has_chain good.is_recovered

-- A receipt with an amount, whose addresses have 20 bytes and whose hashes and ids have 32, that the receipt key signs can be checked from its wire form alone: the
-- wire form is read back as the receipt, and the signature's signer over it is the address of the
-- key.
pub to_receipt-verified :
    (eth : Eth) (key : Wallet) (r : Receipt) (a : ℤ) (sig : List ℕ)
    → ReadsTexts eth
    → Recovers eth key
    → r.amount ≡ some a
    → HasWidths r
    → sign_receipt eth key r ≡ some sig
    → (to_receipt eth (to_json eth r) ≡ some r)
      × ((to_receipt eth (to_json eth r) >>= λ q. verify_receipt eth q sig) ≡ some key.address)
to_receipt-verified eth key r a sig reads lib amount fits signed =
    let back = to_receipt-to_json eth r a reads amount fits in
    (back, rw back (sign_receipt-verified eth key r sig lib signed))
