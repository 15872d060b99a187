-- ===== src/Gateway/Settle.antt =====
-- Settlement, delivery and refund: x402/gateway.go `settle`, `deliver`, `refund`.
use stablecoin_x402_gateway.Base.{
  ℕ, String, Bool, true, false, Option, none, some, [], ◌∷◌, ◌++◌, if◌then◌else◌, string_eq, ◌==◌,
}
use Prim.Native.String.{◌++◌ as join_text}
use stablecoin_x402_gateway.Base.Int.{pos}
use stablecoin_x402_gateway.Codes.{ErrorCode, settlement_error, settlement_failed, delivery_failed}
use stablecoin_x402_gateway.Wire.{PaymentPayload, PaymentRequirements}
use stablecoin_x402_gateway.Wallet.{Authorization}
use stablecoin_x402_gateway.Facilitator.{Answer, SettleResult, Parsed, parse_exact_payload}
use stablecoin_x402_gateway.Journal.{JournalEntry}
use stablecoin_x402_gateway.Policy.Context.{PaymentContext, approval}
use stablecoin_x402_gateway.Policy.History.{unix}
use stablecoin_x402_gateway.Policy.Chain.{notify}
use stablecoin_x402_gateway.Gateway.Defs.{
  Gateway, GatewayState, World, SettlementRecord, Outcome, recorded, refused, settle_call,
  deliver_call, refund_call, failure, policy_of, big_text, with_policy_state, log_call,
  journal_append,
}
use stablecoin_x402_gateway.Gateway.Decisions.{record_decision}

-- `journalEntry`, and the entries of `journalRefund` and `journalRefundPending`.
unfoldable pub settlement_entry : Gateway → SettlementRecord → JournalEntry
settlement_entry g r = record {
  id = g.eth.hash_hex r.tx_hash;
  payer = g.eth.address_hex r.payer;
  amount = big_text r.amount;
  tx_hash = g.eth.hash_hex r.tx_hash;
  network = g.network;
  at = pos (unix r.time);
  kind = "";
  receipt = none;
  decision = none;
  revocation = none;
}

unfoldable pub refund_entry : Gateway → ℕ → SettlementRecord → ℕ → JournalEntry
refund_entry g now r refund_tx = record {
  id = g.eth.hash_hex refund_tx;
  payer = g.eth.address_hex r.payer;
  amount = big_text r.amount;
  tx_hash = g.eth.hash_hex refund_tx;
  network = g.network;
  at = pos (unix now);
  kind = "refund";
  receipt = none;
  decision = none;
  revocation = none;
}

unfoldable pub refund_pending_entry : Gateway → ℕ → SettlementRecord → JournalEntry
refund_pending_entry g now r = record {
  id = join_text (g.eth.hash_hex r.tx_hash) ":refund_pending";
  payer = g.eth.address_hex r.payer;
  amount = big_text r.amount;
  tx_hash = g.eth.hash_hex r.tx_hash;
  network = g.network;
  at = pos (unix now);
  kind = "refund_pending";
  receipt = none;
  decision = none;
  revocation = none;
}

unfoldable pub notify_settlers :
    Gateway → World → PaymentContext → Bool → GatewayState → GatewayState
unfolding notify
notify_settlers g w pc success s =
    with_policy_state (notify g.eth (policy_of g) w.now pc success s.policy_state) s

unfoldable pub settle_failed :
    Gateway
    → World
    → PaymentContext
    → ErrorCode
    → Option String
    → GatewayState
    → Outcome × GatewayState
unfolding notify_settlers
settle_failed g w pc code reason s = (refused (failure code reason), notify_settlers g w pc false s)

-- What follows the journal's append.
unfoldable pub after_journal :
    Gateway
    → World
    → PaymentContext
    → SettlementRecord
    → Bool × GatewayState
    → Outcome × GatewayState
unfolding settle_failed notify_settlers record_decision
after_journal g w pc r (false, s) = settle_failed g w pc settlement_error none s
after_journal g w pc r (true, s) =
    let s₁ = notify_settlers g w pc true s in
    let s₂ = record s₁ { settlements = s₁.settlements ++ r ∷ [] } in
    (recorded r, record_decision g w pc approval true s₂)

unfoldable pub settled_record : Gateway → World → Authorization → SettleResult → SettlementRecord
settled_record g w a sr = record {
  payer = a.sender;
  amount = some a.value;
  tx_hash = g.eth.hex_to_hash sr.transaction;
  time = w.now;
  delivery_tx = 0;
}

unfoldable pub record_settlement :
    Gateway → World → PaymentContext → SettleResult → Parsed → GatewayState → Outcome × GatewayState
unfolding settle_failed after_journal settled_record settlement_entry journal_append
record_settlement g w pc sr (Parsed.malformed _) s = settle_failed g w pc settlement_error none s
record_settlement g w pc sr (Parsed.parsed a sig) s =
    let r = settled_record g w a sr in
    after_journal g w pc r (journal_append w (settlement_entry g r) s)

abbrev pub error_reason_or : String → SettleResult → String
error_reason_or text sr = if sr.error_reason == "" then text else sr.error_reason

unfoldable pub settle_answered :
    Gateway
    → World
    → PaymentPayload
    → PaymentContext
    → Answer SettleResult
    → GatewayState
    → Outcome × GatewayState
unfolding settle_failed record_settlement parse_exact_payload
settle_answered g w p pc none s = settle_failed g w pc settlement_error none s
settle_answered g w p pc (some none) s =
    settle_failed g w pc settlement_failed (some "settlement failed") s
settle_answered g w p pc (some (some sr)) s =
    if sr.success
    then record_settlement g w pc sr (parse_exact_payload g.eth p.payload) s
    else settle_failed g w pc settlement_failed (some (error_reason_or "settlement failed" sr)) s

unfoldable pub settle :
    Gateway
    → World
    → PaymentPayload
    → PaymentRequirements
    → PaymentContext
    → GatewayState
    → Outcome × GatewayState
unfolding settle_answered
settle g w p reqs pc s = settle_answered g w p pc (w.settle p reqs) (log_call (settle_call p) s)

unfoldable pub journal_refund : Gateway → World → SettlementRecord → ℕ → GatewayState → GatewayState
unfolding refund_entry journal_append
journal_refund g w r refund_tx s = (journal_append w (refund_entry g w.now r refund_tx) s).1

unfoldable pub journal_refund_pending :
    Gateway → World → SettlementRecord → GatewayState → GatewayState
unfolding refund_pending_entry journal_append
journal_refund_pending g w r s = (journal_append w (refund_pending_entry g w.now r) s).1

-- The answer of the refund transfer; `none` is its failure.
unfoldable pub after_refund :
    Gateway → World → SettlementRecord → Option ℕ → GatewayState → Outcome × GatewayState
unfolding journal_refund journal_refund_pending
after_refund g w r none s = (refused (failure delivery_failed none), journal_refund_pending g w r s)
after_refund g w r (some tx) s = (refused (failure delivery_failed none), journal_refund g w r tx s)

unfoldable pub refund : Gateway → World → SettlementRecord → GatewayState → Outcome × GatewayState
unfolding after_refund
refund g w r s =
    if g.has_refunder
    then after_refund g w r (w.refund r.payer r.amount) (log_call (refund_call r.payer r.amount) s)
    else after_refund g w r none s

unfoldable pub after_delivery :
    Gateway → World → SettlementRecord → Option ℕ → GatewayState → Outcome × GatewayState
unfolding refund
after_delivery g w r none s = refund g w r s
after_delivery g w r (some tx) s = (recorded (record r { delivery_tx = tx }), s)

unfoldable pub deliver : Gateway → World → SettlementRecord → GatewayState → Outcome × GatewayState
unfolding after_delivery
deliver g w r s =
    if g.has_deliverer
    then after_delivery g w r (w.deliver r.payer) (log_call (deliver_call r.payer) s)
    else (recorded r, s)
