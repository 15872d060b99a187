-- ===== src/Gateway/Receipts.antt =====
-- The receipt of a settled payment: x402/gateway.go `issueReceipt`.
use stablecoin_x402_gateway.Base.{ℕ, Option, none, some, ◌>>=◌}
use stablecoin_x402_gateway.Base.Int.{pos}
use stablecoin_x402_gateway.Base.Hex.{prefixed_hex, bytes32_text}
use stablecoin_x402_gateway.Wire.{PaymentPayload, PaymentRequirements}
use stablecoin_x402_gateway.Mandate.{Mandate, to_mandate}
use stablecoin_x402_gateway.Journal.{JournalEntry, SignedReceiptJson}
use stablecoin_x402_gateway.Wallet.{Wallet}
use stablecoin_x402_gateway.Receipt.{Receipt, big_string, sign_receipt, to_json}
use stablecoin_x402_gateway.Policy.History.{unix}
use stablecoin_x402_gateway.Gateway.Defs.{
  Gateway, GatewayState, World, SettlementRecord, journal_append,
}

-- The mandate id and the delegator, zero without a readable mandate.
abbrev ids_of : Option Mandate → ℕ × ℕ
ids_of none = (0, 0)
ids_of (some m) = (m.mandate_id, m.delegator)

unfoldable pub mandate_ids : Gateway → Option PaymentPayload → ℕ × ℕ
unfolding to_mandate
mandate_ids g payment = ids_of (do p ← payment; signed ← p.mandate; to_mandate g.eth signed.mandate)

unfoldable pub receipt_of :
    Gateway → World → ℕ → SettlementRecord → PaymentRequirements → Option PaymentPayload → Receipt
unfolding mandate_ids
receipt_of g w id r reqs payment = record {
  receipt_id = id;
  network = g.network;
  resource = reqs.resource;
  payer = r.payer;
  pay_to = g.pay_to;
  amount = r.amount;
  settlement_tx = r.tx_hash;
  delivery_tx = r.delivery_tx;
  mandate_id = (mandate_ids g payment).0;
  delegator = (mandate_ids g payment).1;
  issued_at = pos (unix w.now);
}

unfoldable pub signed_receipt : Gateway → Wallet → Receipt → Option SignedReceiptJson
unfolding sign_receipt to_json
signed_receipt g key receipt = sign_receipt g.eth key receipt >>= λ sig.
    some (record { receipt = to_json g.eth receipt; signature = prefixed_hex sig })

unfoldable pub receipt_entry :
    Gateway → World → ℕ → SettlementRecord → SignedReceiptJson → JournalEntry
receipt_entry g w id r signed = record {
  id = bytes32_text id;
  payer = g.eth.address_hex r.payer;
  amount = big_string r.amount;
  tx_hash = g.eth.hash_hex r.tx_hash;
  network = g.network;
  at = pos (unix w.now);
  kind = "receipt";
  receipt = some signed;
  decision = none;
  revocation = none;
}

-- A failed write of the entry is only logged.
unfoldable pub journal_receipt :
    Gateway
    → World
    → ℕ
    → SettlementRecord
    → Option SignedReceiptJson
    → GatewayState
    → Option SignedReceiptJson × GatewayState
unfolding receipt_entry journal_append
journal_receipt g w id r none s = (none, s)
journal_receipt g w id r (some signed) s =
    (some signed, (journal_append w (receipt_entry g w id r signed) s).1)

-- `issueReceipt`; without a receipt id there is no receipt.
unfoldable pub issue_receipt :
    Gateway
    → World
    → Wallet
    → Option ℕ
    → SettlementRecord
    → PaymentRequirements
    → Option PaymentPayload
    → GatewayState
    → Option SignedReceiptJson × GatewayState
unfolding receipt_of signed_receipt journal_receipt
issue_receipt g w key none r reqs payment s = (none, s)
issue_receipt g w key (some id) r reqs payment s =
    journal_receipt g w id r (signed_receipt g key (receipt_of g w id r reqs payment)) s

-- `if g.ReceiptKey != nil`
unfoldable pub receipt_if_keyed :
    Gateway
    → World
    → Option Wallet
    → SettlementRecord
    → PaymentRequirements
    → Option PaymentPayload
    → GatewayState
    → Option SignedReceiptJson × GatewayState
unfolding issue_receipt
receipt_if_keyed g w none r reqs payment s = (none, s)
receipt_if_keyed g w (some key) r reqs payment s =
    issue_receipt g w key w.receipt_id r reqs payment s
