-- ===== src/Journal/Records.antt =====
-- The records of a journal line: x402/journal.go, and the receipt of x402/receipt.go in its wire
-- form.
use stablecoin_x402_gateway.Base.{String, Bool, Option}
use stablecoin_x402_gateway.Base.Int.{ℤ}
use stablecoin_x402_gateway.Base.Float.{Float64}

pub record ReceiptJson : Type 0 where
  pub receipt_id : String
  pub network : String
  pub resource : String
  pub payer : String
  pub pay_to : String
  pub amount : String
  pub settlement_tx : String
  pub delivery_tx : String
  pub mandate_id : String
  pub delegator : String
  pub issued_at : ℤ

pub record SignedReceiptJson : Type 0 where
  pub receipt : ReceiptJson
  pub signature : String

pub record DecisionRecord : Type 0 where
  pub nonce : String
  pub amount : String
  pub risk_score : Float64
  pub stage : ℤ
  pub asks_so_far : ℤ
  pub mandate_id : String
  pub action : ℤ
  pub code : String
  pub settled : Bool

pub record RevocationRecord : Type 0 where
  pub mandate_id : String
  pub delegator : String
  pub signature : String

pub record JournalEntry : Type 0 where
  pub id : String
  pub payer : String
  pub amount : String
  pub tx_hash : String
  pub network : String
  pub at : ℤ
  pub kind : String
  pub receipt : Option SignedReceiptJson
  pub decision : Option DecisionRecord
  pub revocation : Option RevocationRecord
