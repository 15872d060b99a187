-- ===== src/Gateway/Preserve/Requests.antt =====
-- What `verifyAndSettle` of x402/gateway.go keeps, from what its single changes keep.
use stablecoin_x402_gateway.Base.{
  ℕ, false, Option, none, some, string_eq, nat_eq, Bool-cases, inl, inr,
}
use stablecoin_x402_gateway.Base.Dict.{lookup}
use stablecoin_x402_gateway.Wire.{PaymentPayload, PaymentRequirements, VerifyResult}
use stablecoin_x402_gateway.Facilitator.{Answer}
use stablecoin_x402_gateway.Policy.Context.{
  Action, Decision, Stage, PaymentContext, payload_nonce, is_approve,
}
use stablecoin_x402_gateway.Policy.Chain.{policy_decide}
use stablecoin_x402_gateway.Policy.State.{PolicyState}
use stablecoin_x402_gateway.Gateway.Defs.{
  Gateway, GatewayState, World, Deferred, SettlementRecord, Outcome, recorded, refused, Failure,
  on_success, policy_of, with_policy_state, enrich, check_resource_binding,
}
use stablecoin_x402_gateway.Gateway.Decisions.{record_decision, nonce_or_zero}
use stablecoin_x402_gateway.Gateway.Settle.{settle, deliver}
use stablecoin_x402_gateway.Gateway.Deferred.{
  hold_delivery, begin_deferred, stage_of, payment_context, resume_context, resume_decided,
  resume_at, resume_deferred, act_on, after_decision, after_verify, fresh_payment, route_payment,
  verify_and_settle,
}
use stablecoin_x402_gateway.Gateway.Preserve.{
  Preserved, record_decision-preserves, settle-preserves, deliver-preserves,
}

module _ (g : Gateway) (w : World) (P : GatewayState → Type 0) (keeps : Preserved g w P) where
  on_success-preserves :
      (k : SettlementRecord → GatewayState → Outcome × GatewayState)
      → ((r : SettlementRecord) (s : GatewayState) → P s → P (k r s).1)
      → (x : Outcome × GatewayState) → P x.1
      → P (on_success k x).1
  unfolding on_success
  on_success-preserves k next (recorded r, s) h = next r s h
  on_success-preserves k next (refused f, s) h = h

  begin_deferred-preserves :
      (p : PaymentPayload) (reqs : PaymentRequirements) (pc : PaymentContext) (nonce : ℕ)
      (s : GatewayState)
      → P s
      → P (begin_deferred g w p reqs pc nonce s).1
  unfolding begin_deferred hold_delivery
  begin_deferred-preserves p reqs pc nonce s h =
      on_success-preserves (hold_delivery w nonce) (λ r s' h'. keeps.on_put nonce _ s' h')
        (settle g w p reqs pc s) (settle-preserves g w P keeps p reqs pc s h)

  resume_decided-preserves :
      (nonce : ℕ) (df : Deferred) (x : Decision × PolicyState) (s : GatewayState)
      → P s
      → P (resume_decided g w nonce df x s).1
  unfolding resume_decided
  resume_decided-preserves nonce df (d, ps) s h = elim (Bool-cases (is_approve d.action)) [
    | inl go ↦ rw go (
        deliver-preserves g w P keeps df.settlement _
          (keeps.on_remove nonce _ (keeps.on_policy ps s h)))
    | inr wait ↦ rw wait (keeps.on_policy ps s h)
  ]

  resume_at-preserves :
      (p : PaymentPayload) (reqs : PaymentRequirements) (nonce : ℕ) (df : Deferred)
      (stage : Option Stage) (s : GatewayState)
      → P s
      → P (resume_at g w p reqs nonce df stage s).1
  unfolding resume_at
  resume_at-preserves p reqs nonce df none s h = h
  resume_at-preserves p reqs nonce df (some stage) s h =
      let pc = enrich g s (resume_context g p reqs df stage) in
      resume_decided-preserves nonce df (policy_decide g.eth (policy_of g) w.now pc s.policy_state)
        s h

  act_on-preserves :
      (p : PaymentPayload) (reqs : PaymentRequirements) (pc : PaymentContext)
      (vr : Option VerifyResult) (nonce : ℕ) (d : Decision) (a : Action) (s : GatewayState)
      → P s
      → P (act_on g w p reqs pc vr nonce d a s).1
  unfolding act_on
  act_on-preserves p reqs pc vr nonce d Action.approve s h =
      on_success-preserves (deliver g w) (deliver-preserves g w P keeps) (settle g w p reqs pc s)
        (settle-preserves g w P keeps p reqs pc s h)
  act_on-preserves p reqs pc vr nonce d Action.defer s h =
      begin_deferred-preserves p reqs pc nonce s h
  act_on-preserves p reqs pc vr nonce d Action.reject s h = h
  act_on-preserves p reqs pc vr nonce d Action.ask s h = h
  act_on-preserves p reqs pc vr nonce d Action.require_bond s h = h

  after_decision-preserves :
      (p : PaymentPayload) (reqs : PaymentRequirements) (pc : PaymentContext)
      (vr : Option VerifyResult) (nonce : ℕ) (x : Decision × PolicyState) (s : GatewayState)
      → P s
      → P (after_decision g w p reqs pc vr nonce x s).1
  unfolding after_decision
  after_decision-preserves p reqs pc vr nonce (d, ps) s h =
      act_on-preserves p reqs pc vr nonce d d.action
        (record_decision g w pc d false (with_policy_state ps s))
        (record_decision-preserves g w P keeps pc d false (with_policy_state ps s)
          (keeps.on_policy ps s h))

  after_verify-preserves :
      (p : PaymentPayload) (reqs : PaymentRequirements) (nonce : ℕ) (answer : Answer VerifyResult)
      (s : GatewayState)
      → P s
      → P (after_verify g w p reqs nonce answer s).1
  unfolding after_verify
  after_verify-preserves p reqs nonce none s h = h
  after_verify-preserves p reqs nonce (some vr) s h =
      let pc = enrich g s (payment_context p reqs vr Stage.pre_settlement) in
      after_decision-preserves p reqs pc vr nonce
        (policy_decide g.eth (policy_of g) w.now pc s.policy_state) s h

  fresh_payment-preserves :
      (p : PaymentPayload) (reqs : PaymentRequirements) (nonce : ℕ) (bound : Option Failure)
      (s : GatewayState)
      → P s
      → P (fresh_payment g w p reqs nonce bound s).1
  unfolding fresh_payment
  fresh_payment-preserves p reqs nonce (some fail) s h = h
  fresh_payment-preserves p reqs nonce none s h =
      after_verify-preserves p reqs nonce (w.verify p reqs) s h

  route_payment-preserves :
      (p : PaymentPayload) (reqs : PaymentRequirements) (nonce : ℕ) (df : Option Deferred)
      (s : GatewayState)
      → P s
      → P (route_payment g w p reqs nonce df s).1
  unfolding route_payment resume_deferred
  route_payment-preserves p reqs nonce (some df) s h =
      resume_at-preserves p reqs nonce df (stage_of g w df.submitted_block) s h
  route_payment-preserves p reqs nonce none s h =
      fresh_payment-preserves p reqs nonce (check_resource_binding g p reqs) s h

  pub verify_and_settle-preserves :
      (p : Option PaymentPayload) (reqs : PaymentRequirements) (s : GatewayState)
      → P s
      → P (verify_and_settle g w p reqs s).1
  unfolding verify_and_settle
  verify_and_settle-preserves none reqs s h = h
  verify_and_settle-preserves (some p) reqs s h =
      let nonce = nonce_or_zero (payload_nonce g.eth p) in
      route_payment-preserves p reqs nonce (lookup nonce s.in_flight) s h
