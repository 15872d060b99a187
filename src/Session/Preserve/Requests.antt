-- ===== src/Session/Preserve/Requests.antt =====
-- What every request keeps: a predicate on the gateway's state, with what it says of each session,
-- through `Middleware` of x402/gateway.go and the sessions of x402/session.go.
use stablecoin_x402_gateway.Base.{
  ℕ, ◌≡◌, refl, String, Bool, true, false, not, ◌&&◌, ◌||◌, Option, none, some, Bool-cases,
  Option-cases, inl, inr, if◌then◌else◌, string_eq, ◌==◌, arith,
}
use stablecoin_x402_gateway.Base.Int.{◌-ℤ◌, ltb_ℤ}
use stablecoin_x402_gateway.Base.Dict.{lookup}
use stablecoin_x402_gateway.Wire.{PaymentPayload, PaymentRequirements, VerifyResult}
use stablecoin_x402_gateway.Wallet.{Wallet}
use stablecoin_x402_gateway.Facilitator.{Answer, Parsed, parse_exact_payload}
use stablecoin_x402_gateway.Policy.Context.{Decision, Stage, PaymentContext, is_approve}
use stablecoin_x402_gateway.Policy.Chain.{policy_decide}
use stablecoin_x402_gateway.Policy.State.{PolicyState}
use stablecoin_x402_gateway.Gateway.Defs.{
  Gateway, GatewayState, World, PaymentSession, SettlementRecord, Outcome, recorded, refused,
  Failure, policy_of, enrich, check_resource_binding, requirements,
}
use stablecoin_x402_gateway.Journal.{SignedReceiptJson}
use stablecoin_x402_gateway.Gateway.Receipts.{
  receipt_of, signed_receipt, journal_receipt, issue_receipt, receipt_if_keyed,
}
use stablecoin_x402_gateway.Gateway.Deferred.{payment_context, verify_and_settle}
use stablecoin_x402_gateway.Gateway.Preserve.{Preserved}
use stablecoin_x402_gateway.Session.{
  Response, Request, new_session, start_session, open_decided, open_parsed, is_valid_verdict,
  open_verified, open_bound, open_session, is_expiring, after_close, opens_session, after_exhausted,
  draw, continue_session, with_session, handle_session, respond, pay, with_payment, middleware,
}
use stablecoin_x402_gateway.Session.Settle.{settle_session}
use stablecoin_x402_gateway.Gateway.Preserve.Requests.{verify_and_settle-preserves}
use stablecoin_x402_gateway.Session.Preserve.{SessionsPreserved, settle_session-preserves}

module _ (g : Gateway) (w : World) (P : GatewayState → Type 0) (Q : PaymentSession → Type 0)
    (keeps : Preserved g w P) (sessions : SessionsPreserved g w P Q) where
  start_session-preserves :
      (id : Option String) (sess : PaymentSession) (s : GatewayState)
      → Q sess
      → P s
      → P (start_session id sess s).1
  unfolding start_session
  start_session-preserves none sess s q h = h
  start_session-preserves (some id) sess s q h = sessions.on_put id sess s q h

  open_decided-preserves :
      (pc : PaymentContext) (vr : Option VerifyResult) (sess : PaymentSession)
      (x : Decision × PolicyState) (s : GatewayState)
      → Q sess
      → P s
      → P (open_decided g w pc vr sess x s).1
  unfolding open_decided
  open_decided-preserves pc vr sess (d, ps) s q h = elim (Bool-cases (is_approve d.action)) [
    | inl go ↦ rw go (start_session-preserves w.session_id sess _ q (keeps.on_policy ps s h))
    | inr stop ↦ rw stop (keeps.on_policy ps s h)
  ]

  open_parsed-preserves :
      (p : PaymentPayload) (resource : String) (vr : Option VerifyResult) (x : Parsed)
      (s : GatewayState)
      → w.verify p (requirements g resource) ≡ some vr
      → is_valid_verdict vr ≡ true
      → parse_exact_payload g.eth p.payload ≡ x
      → P s
      → P (open_parsed g w p (requirements g resource) vr x s).1
  unfolding open_parsed
  open_parsed-preserves p resource vr (Parsed.malformed _) s verified valid parse h = h
  open_parsed-preserves p resource vr (Parsed.parsed a sig) s verified valid parse h =
      let pc = enrich g s (payment_context p (requirements g resource) vr Stage.pre_settlement) in
      open_decided-preserves pc vr (new_session g p (requirements g resource) pc a)
        (policy_decide g.eth (policy_of g) w.now pc s.policy_state) s
        (sessions.on_open p resource vr pc a sig verified valid parse) h

  open_verified-preserves :
      (p : PaymentPayload) (resource : String) (answer : Answer VerifyResult) (s : GatewayState)
      → w.verify p (requirements g resource) ≡ answer
      → P s
      → P (open_verified g w p (requirements g resource) answer s).1
  unfolding open_verified
  open_verified-preserves p resource none s verified h = h
  open_verified-preserves p resource (some vr) s verified h =
      elim (Bool-cases (is_valid_verdict vr)) [
        | inl valid ↦ rw valid (
            open_parsed-preserves p resource vr (parse_exact_payload g.eth p.payload) s verified
              valid refl h)
        | inr bad ↦ rw bad h
      ]

  open_bound-preserves :
      (p : PaymentPayload) (resource : String) (bound : Option Failure) (s : GatewayState)
      → P s
      → P (open_bound g w p (requirements g resource) bound s).1
  unfolding open_bound
  open_bound-preserves p resource (some fail) s h = h
  open_bound-preserves p resource none s h =
      open_verified-preserves p resource (w.verify p (requirements g resource)) s refl h

  open_session-preserves :
      (p : PaymentPayload) (resource : String) (s : GatewayState)
      → P s
      → P (open_session g w p resource s).1
  unfolding open_session
  open_session-preserves p resource s h = elim (Bool-cases g.has_refunder) [
    | inl able ↦
        rw able (
          open_bound-preserves p resource (check_resource_binding g p (requirements g resource)) s
            h)
    | inr keyless ↦ rw keyless h
  ]

  after_close-preserves :
      (id : String) (x : Option SettlementRecord × GatewayState) → P x.1 → P (after_close id x).1
  unfolding after_close
  after_close-preserves id (none, s) h = sessions.on_remove id s h
  after_close-preserves id (some r, s) h = sessions.on_remove id s h

  after_exhausted-preserves :
      (id : String) (expiring : Bool) (x : Option SettlementRecord × GatewayState)
      → P x.1
      → P (after_exhausted id expiring x).1
  unfolding after_exhausted
  after_exhausted-preserves id expiring (none, s) h = h
  after_exhausted-preserves id expiring (some r, s) h = sessions.on_remove id s h

  continue_session-preserves :
      (id : String) (sess : PaymentSession) (s : GatewayState)
      → Q sess
      → P s
      → P (continue_session g w id sess s).1
  unfolding continue_session
  continue_session-preserves id sess s q h =
      let short = ltb_ℤ (sess.budget -ℤ sess.spent) g.price in
      elim (Bool-cases (is_expiring w.now sess || short)) [
        | inl over ↦ rw over (
            after_exhausted-preserves id (is_expiring w.now sess) (settle_session g w sess s)
              (settle_session-preserves g w P keeps sess s h))
        | inr going ↦ rw going (
            sessions.on_put id (draw g sess) s
              (sessions.on_draw sess (not_either (is_expiring w.now sess) short going) q) h)
      ]
    where
      not_either : (a b : Bool) → a || b ≡ false → b ≡ false
      not_either a b e = ground arith

  with_session-preserves :
      (close : Bool) (id : String) (found : Option PaymentSession) (s : GatewayState)
      → lookup id s.sessions ≡ found
      → P s
      → P (with_session g w close id found s).1
  unfolding with_session
  with_session-preserves close id none s found_at h = h
  with_session-preserves close id (some sess) s found_at h = either sess.settled _ _ h (
      either close (after_close id (settle_session g w sess s)) (continue_session g w id sess s)
        (after_close-preserves id (settle_session g w sess s)
          (settle_session-preserves g w P keeps sess s h))
        (continue_session-preserves id sess s (sessions.on_found id sess s found_at h) h))
    where
      either : (b : Bool) (x y : Response × GatewayState) → P x.1 → P y.1 → P (if b then x else y).1
      either true x y px py = px
      either false x y px py = py

  pub handle_session-preserves :
      (close : Bool) (id : String) (s : GatewayState) → P s → P (handle_session g w close id s).1
  unfolding handle_session
  handle_session-preserves close id s h =
      with_session-preserves close id (lookup id s.sessions) s refl h

  journal_receipt-preserves :
      (id : ℕ) (r : SettlementRecord) (signed : Option SignedReceiptJson) (s : GatewayState)
      → P s
      → P (journal_receipt g w id r signed s).1
  unfolding journal_receipt
  journal_receipt-preserves id r none s h = h
  journal_receipt-preserves id r (some signed) s h = keeps.on_journal _ s h

  issue_receipt-preserves :
      (key : Wallet) (id : Option ℕ) (r : SettlementRecord) (reqs : PaymentRequirements)
      (payment : Option PaymentPayload) (s : GatewayState)
      → P s
      → P (issue_receipt g w key id r reqs payment s).1
  unfolding issue_receipt
  issue_receipt-preserves key none r reqs payment s h = h
  issue_receipt-preserves key (some id) r reqs payment s h =
      journal_receipt-preserves id r (signed_receipt g key (receipt_of g w id r reqs payment)) s h

  receipt_if_keyed-preserves :
      (key : Option Wallet) (r : SettlementRecord) (reqs : PaymentRequirements)
      (payment : Option PaymentPayload) (s : GatewayState)
      → P s
      → P (receipt_if_keyed g w key r reqs payment s).1
  unfolding receipt_if_keyed
  receipt_if_keyed-preserves none r reqs payment s h = h
  receipt_if_keyed-preserves (some key) r reqs payment s h =
      issue_receipt-preserves key w.receipt_id r reqs payment s h

  respond-preserves :
      (reqs : PaymentRequirements) (payment : Option PaymentPayload) (x : Outcome × GatewayState)
      → P x.1
      → P (respond g w reqs payment x).1
  unfolding respond
  respond-preserves reqs payment (refused f, s) h = h
  respond-preserves reqs payment (recorded r, s) h =
      receipt_if_keyed-preserves g.receipt_key r reqs payment s h

  pay-preserves :
      (p : Option PaymentPayload) (resource : String) (s : GatewayState)
      → P s
      → P (pay g w p resource s).1
  unfolding pay
  pay-preserves p resource s h =
      respond-preserves (requirements g resource) p
        (verify_and_settle g w p (requirements g resource) s)
        (verify_and_settle-preserves g w P keeps p (requirements g resource) s h)

  with_payment-preserves :
      (p : Option PaymentPayload) (resource : String) (s : GatewayState)
      → P s
      → P (with_payment g w p resource s).1
  unfolding with_payment
  with_payment-preserves none resource s h = pay-preserves none resource s h
  with_payment-preserves (some p) resource s h =
      elim (Bool-cases (g.sessions_enabled && opens_session (some p))) [
        | inl opens ↦ rw opens (open_session-preserves p resource s h)
        | inr pays ↦ rw pays (pay-preserves (some p) resource s h)
      ]

  pub middleware-preserves : (req : Request) (s : GatewayState) → P s → P (middleware g w req s).1
  unfolding middleware
  middleware-preserves req s h = elim (Option-cases req.payment) [
    | inr (p, given) ↦ rw given (with_payment-preserves p req.resource s h)
    | inl absent ↦ elim (Bool-cases (g.sessions_enabled && not (req.session_id == ""))) [
      | inl goes_on ↦ rw (absent, goes_on) (handle_session-preserves req.close req.session_id s h)
      | inr unpaid ↦ rw (absent, unpaid) h
    ]
  ]
