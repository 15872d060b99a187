-- ===== src/Session/Preserve.antt =====
-- What the settlement of a session in x402/session.go keeps, and the interface of what sessions do
-- to a predicate on the gateway's state.
use stablecoin_x402_gateway.Base.{
  ℕ, List, ◌≡◌, refl, String, Bool, true, false, not, ◌&&◌, ◌||◌, Option, none, some, Bool-cases,
  Option-cases, inl, inr, if◌then◌else◌, string_eq, ◌==◌, arith,
}
use stablecoin_x402_gateway.Base.Int.{ℤ, ◌-ℤ◌, ltb_ℤ, is_positive}
use stablecoin_x402_gateway.Base.Dict.{lookup}
use stablecoin_x402_gateway.Wire.{PaymentPayload, PaymentRequirements, VerifyResult}
use stablecoin_x402_gateway.Wallet.{Authorization, Wallet}
use stablecoin_x402_gateway.Facilitator.{Answer, SettleResult, Parsed, parsed, parse_exact_payload}
use stablecoin_x402_gateway.Policy.Context.{Decision, Stage, PaymentContext, is_approve}
use stablecoin_x402_gateway.Policy.Chain.{policy_decide}
use stablecoin_x402_gateway.Policy.State.{PolicyState}
use stablecoin_x402_gateway.Gateway.Defs.{
  Gateway, GatewayState, World, PaymentSession, SettlementRecord, Outcome, recorded, refused,
  Failure, policy_of, journal_append, enrich, check_resource_binding, requirements,
}
use stablecoin_x402_gateway.Gateway.Settle.{
  settlement_entry, journal_refund, journal_refund_pending,
}
use stablecoin_x402_gateway.Journal.{SignedReceiptJson}
use stablecoin_x402_gateway.Gateway.Receipts.{
  receipt_of, signed_receipt, journal_receipt, issue_receipt, receipt_if_keyed,
}
use stablecoin_x402_gateway.Gateway.Deferred.{payment_context, verify_and_settle}
use stablecoin_x402_gateway.Gateway.Preserve.{
  HasEntry, Preserved, journal_append-HasEntry, notify_settlers-preserves,
}
use stablecoin_x402_gateway.Session.{
  Response, Request, new_session, start_session, open_decided, open_parsed, is_valid_verdict,
  open_verified, open_bound, open_session, is_expiring, after_close, opens_session, after_exhausted,
  draw, continue_session, with_session, handle_session, respond, pay, with_payment, middleware,
}
use stablecoin_x402_gateway.Session.Settle.{
  put_session, remove_session, session_record, after_unused, refund_unused, session_journaled,
  session_answered, settle_session,
}
pub mod Requests

-- An opened session is one whose payment the facilitator found valid.
pub record SessionsPreserved (g : Gateway) (w : World) (P : GatewayState → Type 0)
    (Q : PaymentSession → Type 0) : Type 0 where
  pub on_put :
      (id : String) (sess : PaymentSession) (s : GatewayState)
      → Q sess
      → P s
      → P (put_session id sess s)
  pub on_remove : (id : String) (s : GatewayState) → P s → P (remove_session id s)
  pub on_found :
      (id : String) (sess : PaymentSession) (s : GatewayState)
      → lookup id s.sessions ≡ some sess
      → P s
      → Q sess
  pub on_open :
      (p : PaymentPayload) (resource : String) (v : Option VerifyResult) (pc : PaymentContext)
      (a : Authorization) (sig : List ℕ)
      → w.verify p (requirements g resource) ≡ some v
      → is_valid_verdict v ≡ true
      → parse_exact_payload g.eth p.payload ≡ parsed a sig
      → Q (new_session g p (requirements g resource) pc a)
  pub on_draw :
      (sess : PaymentSession)
      → ltb_ℤ (sess.budget -ℤ sess.spent) g.price ≡ false
      → Q sess
      → Q (draw g sess)

module _ (g : Gateway) (w : World) (P : GatewayState → Type 0) (keeps : Preserved g w P) where
  after_unused-preserves :
      (r : SettlementRecord) (unused : ℤ) (tx : Option ℕ) (s : GatewayState)
      → P s
      → P (after_unused g w r unused tx s)
  unfolding after_unused journal_refund journal_refund_pending
  after_unused-preserves r unused none s h = keeps.on_journal _ s h
  after_unused-preserves r unused (some tx) s h = keeps.on_journal _ s h

  refund_unused-preserves :
      (sess : PaymentSession) (r : SettlementRecord) (s : GatewayState)
      → P s
      → P (refund_unused g w sess r s)
  unfolding refund_unused
  refund_unused-preserves sess r s h = elim (Bool-cases (is_positive (sess.budget -ℤ sess.spent))) [
    | inl some_left ↦ rw some_left (after_unused-preserves r _ _ _ (keeps.on_call _ s h))
    | inr nothing_left ↦ rw nothing_left h
  ]

  session_journaled-preserves :
      (sess : PaymentSession) (r : SettlementRecord) (x : Bool × GatewayState)
      → (x.0 ≡ true → HasEntry (g.eth.hash_hex r.tx_hash) x.1)
      → P x.1
      → P (session_journaled g w sess r x).1
  unfolding session_journaled
  session_journaled-preserves sess r (false, s) has h = h
  session_journaled-preserves sess r (true, s) has h =
      refund_unused-preserves sess r _ (
        notify_settlers-preserves g w P keeps sess.pc true _ (keeps.on_settlement r s (has refl) h))

  session_answered-preserves :
      (sess : PaymentSession) (answer : Answer SettleResult) (s : GatewayState)
      → P s
      → P (session_answered g w sess answer s).1
  unfolding session_answered
  session_answered-preserves sess none s h = h
  session_answered-preserves sess (some none) s h = h
  session_answered-preserves sess (some (some sr)) s h =
      let r = session_record g w sess sr in
      elim (Bool-cases sr.success) [
        | inl ok ↦ rw ok (
            session_journaled-preserves sess r (journal_append w (settlement_entry g r) s)
              (journal_append-HasEntry w (settlement_entry g r) s) (keeps.on_journal _ s h))
        | inr bad ↦ rw bad h
      ]

  pub settle_session-preserves :
      (sess : PaymentSession) (s : GatewayState) → P s → P (settle_session g w sess s).1
  unfolding settle_session
  settle_session-preserves sess s h = elim (Bool-cases sess.settled) [
    | inl done ↦ rw done h
    | inr held ↦
        rw held (
          session_answered-preserves sess (w.settle sess.payload sess.reqs) _ (keeps.on_call _ s h))
  ]
