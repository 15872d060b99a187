-- ===== src/Session/Settle.antt =====
-- The settlement of a payment session, with the refund of its unused part: `settleSession` of
-- x402/session.go. Metrics are left out.
use stablecoin_x402_gateway.Base.{
  ℕ, String, Bool, true, false, Option, none, some, [], ◌∷◌, ◌++◌, string_eq, if◌then◌else◌,
}
use stablecoin_x402_gateway.Base.Int.{ℤ, ◌-ℤ◌, is_positive}
use stablecoin_x402_gateway.Base.Dict.{insert, erase}
use stablecoin_x402_gateway.Facilitator.{Answer, SettleResult}
use stablecoin_x402_gateway.Gateway.Defs.{
  Gateway, GatewayState, World, PaymentSession, SettlementRecord, settle_call, refund_call,
  log_call, journal_append,
}
use stablecoin_x402_gateway.Gateway.Settle.{
  settlement_entry, notify_settlers, journal_refund, journal_refund_pending,
}

abbrev pub put_session : String → PaymentSession → GatewayState → GatewayState
put_session id sess s = record s { sessions = insert id sess s.sessions }

abbrev pub remove_session : String → GatewayState → GatewayState
remove_session id s = record s { sessions = erase id s.sessions }

-- `settleSession`: `none` is its error return.
abbrev pub session_record : Gateway → World → PaymentSession → SettleResult → SettlementRecord
session_record g w sess sr = record {
  payer = sess.payer;
  amount = some sess.budget;
  tx_hash = g.eth.hex_to_hash sr.transaction;
  time = w.now;
  delivery_tx = 0;
}

unfoldable pub after_unused :
    Gateway → World → SettlementRecord → ℤ → Option ℕ → GatewayState → GatewayState
unfolding journal_refund journal_refund_pending
after_unused g w r unused none s = journal_refund_pending g w r s
after_unused g w r unused (some tx) s = journal_refund g w (record r { amount = some unused }) tx s

unfoldable pub refund_unused :
    Gateway → World → PaymentSession → SettlementRecord → GatewayState → GatewayState
unfolding after_unused
refund_unused g w sess r s =
    let unused = sess.budget -ℤ sess.spent in
    if is_positive unused
    then after_unused g w r unused (w.refund sess.payer (some unused))
        (log_call (refund_call sess.payer (some unused)) s)
    else s

unfoldable pub session_journaled :
    Gateway
    → World
    → PaymentSession
    → SettlementRecord
    → Bool × GatewayState
    → Option SettlementRecord × GatewayState
unfolding refund_unused notify_settlers
session_journaled g w sess r (false, s) = (none, s)
session_journaled g w sess r (true, s) =
    let s₁ = record s { settlements = s.settlements ++ r ∷ [] } in
    (some r, refund_unused g w sess r (notify_settlers g w sess.pc true s₁))

unfoldable pub session_answered :
    Gateway
    → World
    → PaymentSession
    → Answer SettleResult
    → GatewayState
    → Option SettlementRecord × GatewayState
unfolding session_journaled settlement_entry journal_append
session_answered g w sess none s = (none, s)
session_answered g w sess (some none) s = (none, s)
session_answered g w sess (some (some sr)) s =
    let r = session_record g w sess sr in
    if sr.success
    then session_journaled g w sess r (journal_append w (settlement_entry g r) s)
    else (none, s)

abbrev empty_record : SettlementRecord
empty_record = record { payer = 0; amount = none; tx_hash = 0; time = 0; delivery_tx = 0 }

unfoldable pub settle_session :
    Gateway → World → PaymentSession → GatewayState → Option SettlementRecord × GatewayState
unfolding session_answered
settle_session g w sess s =
    if sess.settled
    then (some empty_record, s)
    else session_answered g w sess (w.settle sess.payload sess.reqs)
        (log_call (settle_call sess.payload) s)
