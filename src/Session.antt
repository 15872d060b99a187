-- ===== src/Session.antt =====
-- Payment sessions: x402/session.go, and the request handler that leads to them, `Middleware` of
-- x402/gateway.go. A request holds the session's lock to its end, so requests come one by one.
-- Metrics and the response's body and headers are left out.
use stablecoin_x402_gateway.Base.{
  ℕ, String, Bool, true, false, not, ◌&&◌, ◌||◌, Option, none, some, [], ◌∷◌, ◌++◌, string_eq, ◌==◌,
  if◌then◌else◌,
}
use stablecoin_x402_gateway.Base.Int.{ℤ, pos, ◌-ℤ◌, ◌+ℤ◌, ltb_ℤ, leb_ℤ, eqb_ℤ, is_positive, wrap64}
use stablecoin_x402_gateway.Base.Dict.{lookup, insert, erase}
use stablecoin_x402_gateway.Codes.{
  ErrorCode, payment_required, verification_error, verification_failed, invalid_payment_header,
  session_unknown, session_exhausted, settlement_error,
}
use stablecoin_x402_gateway.Wire.{PaymentPayload, PaymentRequirements, VerifyResult}
use stablecoin_x402_gateway.Wallet.{Authorization}
use stablecoin_x402_gateway.Facilitator.{Answer, SettleResult, Parsed, parse_exact_payload}
use stablecoin_x402_gateway.Policy.Context.{Decision, Stage, PaymentContext, is_approve}
use stablecoin_x402_gateway.Policy.History.{unix}
use stablecoin_x402_gateway.Policy.Chain.{policy_decide}
use stablecoin_x402_gateway.Policy.State.{PolicyState}
use stablecoin_x402_gateway.Gateway.Defs.{
  Gateway, GatewayState, World, PaymentSession, SettlementRecord, Outcome, recorded, refused,
  Failure, failure, settle_call, refund_call, policy_of, with_policy_state, log_call,
  journal_append, enrich, refusal, check_resource_binding, invalid_reason_or, requirements,
}
use stablecoin_x402_gateway.Gateway.Settle.{
  settlement_entry, notify_settlers, journal_refund, journal_refund_pending,
}
use stablecoin_x402_gateway.Journal.{SignedReceiptJson}
use stablecoin_x402_gateway.Gateway.Receipts.{receipt_if_keyed}
use stablecoin_x402_gateway.Gateway.Deferred.{payment_context, verify_and_settle}
use stablecoin_x402_gateway.Session.Settle.{
  put_session, remove_session, session_record, after_unused, refund_unused, session_journaled,
  session_answered, settle_session,
}
pub mod Settle
pub mod Preserve
pub mod Budget
pub mod Recorded
pub mod Closing
pub mod Refund

-- What a request is answered: the resource, after a payment or within a session, or not.
pub data Response : Type 0 where
  paid : SettlementRecord → Option SignedReceiptJson → Response
  in_session : String → Response
  session_closed : SettlementRecord → Response
  not_served : Failure → Response

-- `openSession`
abbrev pub new_session :
    Gateway → PaymentPayload → PaymentRequirements → PaymentContext → Authorization → PaymentSession
new_session g p reqs pc a = record {
  payload = p;
  reqs = reqs;
  pc = pc;
  payer = a.sender;
  budget = a.value;
  spent = g.price;
  valid_before = wrap64 a.valid_before;
  settled = false;
}

unfoldable pub start_session :
    Option String → PaymentSession → GatewayState → Response × GatewayState
start_session none sess s =
    (not_served (failure verification_error (some "could not open a session")), s)
start_session (some id) sess s = (in_session id, put_session id sess s)

unfoldable pub open_decided :
    Gateway
    → World
    → PaymentContext
    → Option VerifyResult
    → PaymentSession
    → Decision × PolicyState
    → GatewayState
    → Response × GatewayState
unfolding start_session refusal
open_decided g w pc vr sess (d, ps) s =
    let s₁ = with_policy_state ps s in
    if is_approve d.action
    then start_session w.session_id sess s₁
    else (not_served (refusal d pc vr), s₁)

unfoldable pub open_parsed :
    Gateway
    → World
    → PaymentPayload
    → PaymentRequirements
    → Option VerifyResult
    → Parsed
    → GatewayState
    → Response × GatewayState
unfolding open_decided enrich policy_decide
open_parsed g w p reqs vr (Parsed.malformed reason) s =
    (not_served (failure invalid_payment_header (some reason)), s)
open_parsed g w p reqs vr (Parsed.parsed a sig) s =
    let pc = enrich g s (payment_context p reqs vr Stage.pre_settlement) in
    open_decided g w pc vr (new_session g p reqs pc a)
      (policy_decide g.eth (policy_of g) w.now pc s.policy_state) s

abbrev pub is_valid_verdict : Option VerifyResult → Bool
is_valid_verdict none = false
is_valid_verdict (some v) = v.is_valid

unfoldable pub open_verified :
    Gateway
    → World
    → PaymentPayload
    → PaymentRequirements
    → Answer VerifyResult
    → GatewayState
    → Response × GatewayState
unfolding open_parsed parse_exact_payload
open_verified g w p reqs none s = (not_served (failure verification_error none), s)
open_verified g w p reqs (some vr) s =
    if is_valid_verdict vr
    then open_parsed g w p reqs vr (parse_exact_payload g.eth p.payload) s
    else (
      not_served
          (failure verification_failed (some (invalid_reason_or "payment verification failed" vr))),
      s,
    )

unfoldable pub open_bound :
    Gateway
    → World
    → PaymentPayload
    → PaymentRequirements
    → Option Failure
    → GatewayState
    → Response × GatewayState
unfolding open_verified
open_bound g w p reqs (some fail) s = (not_served fail, s)
open_bound g w p reqs none s = open_verified g w p reqs (w.verify p reqs) s

unfoldable pub open_session :
    Gateway → World → PaymentPayload → String → GatewayState → Response × GatewayState
unfolding open_bound check_resource_binding requirements
open_session g w p resource s =
    let reqs = requirements g resource in
    if g.has_refunder then open_bound g w p reqs (check_resource_binding g p reqs) s else (
      not_served (
          failure payment_required
            (some "sessions need a refund path; the gateway is not configured for them")),
      s,
    )

-- `handleSession`
abbrev session_failed : Failure
session_failed = failure settlement_error none

-- `now >= sess.validBefore - 60`, in `int64`.
unfoldable pub is_expiring : ℕ → PaymentSession → Bool
is_expiring now sess =
    not (eqb_ℤ sess.valid_before (pos 0))
    && leb_ℤ (wrap64 (sess.valid_before -ℤ pos 60)) (pos (unix now))

unfoldable pub after_close :
    String → Option SettlementRecord × GatewayState → Response × GatewayState
after_close id (none, s) = (not_served session_failed, remove_session id s)
after_close id (some r, s) = (session_closed r, remove_session id s)

abbrev exhausted_reason : Bool → String
exhausted_reason true = "session authorization is expiring; the session settled and closed"
exhausted_reason false = "session budget spent; the session settled and closed"

unfoldable pub after_exhausted :
    String → Bool → Option SettlementRecord × GatewayState → Response × GatewayState
after_exhausted id expiring (none, s) = (not_served session_failed, s)
after_exhausted id expiring (some _, s) =
    (not_served (failure session_exhausted (some (exhausted_reason expiring))), remove_session id s)

abbrev pub draw : Gateway → PaymentSession → PaymentSession
draw g sess = record sess { spent = sess.spent +ℤ g.price }

unfoldable pub continue_session :
    Gateway → World → String → PaymentSession → GatewayState → Response × GatewayState
unfolding is_expiring after_exhausted settle_session
continue_session g w id sess s =
    if is_expiring w.now sess || ltb_ℤ (sess.budget -ℤ sess.spent) g.price
    then after_exhausted id (is_expiring w.now sess) (settle_session g w sess s)
    else (in_session id, put_session id (draw g sess) s)

unfoldable pub with_session :
    Gateway → World → Bool → String → Option PaymentSession → GatewayState → Response × GatewayState
unfolding continue_session after_close settle_session
with_session g w close id none s =
    (not_served (failure session_unknown (some "unknown or already-settled session")), s)
with_session g w close id (some sess) s =
    if sess.settled
    then (not_served (failure session_unknown (some "session already settled")), s)
    else if close
    then after_close id (settle_session g w sess s)
    else continue_session g w id sess s

unfoldable pub handle_session :
    Gateway → World → Bool → String → GatewayState → Response × GatewayState
unfolding with_session
handle_session g w close id s = with_session g w close id (lookup id s.sessions) s

-- A request's headers: X-PAYMENT, decoded where it is present, and those of a session.
pub record Request : Type 0 where
  pub resource : String
  pub payment : Option (Option PaymentPayload)
  pub session_id : String
  pub close : Bool

unfoldable pub respond :
    Gateway
    → World
    → PaymentRequirements
    → Option PaymentPayload
    → Outcome × GatewayState
    → Response × GatewayState
unfolding receipt_if_keyed
respond g w reqs payment (refused f, s) = (not_served f, s)
respond g w reqs payment (recorded r, s) =
    let (receipt, s') = receipt_if_keyed g w g.receipt_key r reqs payment s in (paid r receipt, s')

abbrev pub opens_session : Option PaymentPayload → Bool
opens_session none = false
opens_session (some p) = elim p.session [ none ↦ false | some req ↦ req.is_open ]

unfoldable pub pay :
    Gateway → World → Option PaymentPayload → String → GatewayState → Response × GatewayState
unfolding respond verify_and_settle requirements
pay g w p resource s =
    let reqs = requirements g resource in respond g w reqs p (verify_and_settle g w p reqs s)

unfoldable pub with_payment :
    Gateway → World → Option PaymentPayload → String → GatewayState → Response × GatewayState
unfolding pay open_session
with_payment g w none resource s = pay g w none resource s
with_payment g w (some p) resource s =
    if g.sessions_enabled && opens_session (some p)
    then open_session g w p resource s
    else pay g w (some p) resource s

-- `Middleware`
unfoldable pub middleware : Gateway → World → Request → GatewayState → Response × GatewayState
unfolding with_payment handle_session
middleware g w req s = elim req.payment [
  | some p ↦ with_payment g w p req.resource s
  | none ↦
      if g.sessions_enabled && not (req.session_id == "")
      then handle_session g w req.close req.session_id s
      else (not_served (failure payment_required (some "X-PAYMENT header is required")), s)
]
