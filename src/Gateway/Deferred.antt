-- ===== src/Gateway/Deferred.antt =====
-- Deferred payments and the whole of a payment request: x402/gateway.go `beginDeferred`,
-- `resumeDeferred`, `stageOf`, `verifyAndSettle`.
use stablecoin_x402_gateway.Base.{
  ℕ, ◌-◌, true, false, Option, none, some, nat_eq, ltb, leb, if◌then◌else◌, ◌>>=◌,
}
use stablecoin_x402_gateway.Base.Int.{pos}
use stablecoin_x402_gateway.Base.Dict.{lookup, insert, erase}
use stablecoin_x402_gateway.Base.Float.{finite}
use stablecoin_x402_gateway.Codes.{
  settlement_error, payment_deferred, invalid_payment_header, verification_error,
}
use stablecoin_x402_gateway.Wire.{PaymentPayload, PaymentRequirements, VerifyResult}
use stablecoin_x402_gateway.Facilitator.{Answer}
use stablecoin_x402_gateway.Policy.Context.{
  Action, Decision, Stage, PaymentContext, payload_nonce, is_approve,
}
use stablecoin_x402_gateway.Policy.Chain.{policy_decide}
use stablecoin_x402_gateway.Policy.State.{PolicyState}
use stablecoin_x402_gateway.Gateway.Defs.{
  Gateway, GatewayState, World, Deferred, SettlementRecord, Outcome, refused, Failure, failure,
  on_success, policy_of, with_policy_state, enrich, refusal, code_or_default,
  check_resource_binding,
}
use stablecoin_x402_gateway.Gateway.Decisions.{record_decision, nonce_or_zero}
use stablecoin_x402_gateway.Gateway.Settle.{settle, deliver}

-- `inflightPut` and `inflightRemove`
abbrev pub put_in_flight : ℕ → Deferred → GatewayState → GatewayState
put_in_flight nonce df s = record s { in_flight = insert nonce df s.in_flight }

abbrev pub remove_in_flight : ℕ → GatewayState → GatewayState
remove_in_flight nonce s = record s { in_flight = erase nonce s.in_flight }

-- `submittedBlock`: 0 where the receipt is not available.
abbrev pub submitted_block : World → ℕ → ℕ
submitted_block w tx = elim (w.receipt_block tx) [ none ↦ 0 | some block ↦ block ]

unfoldable pub hold_delivery : World → ℕ → SettlementRecord → GatewayState → Outcome × GatewayState
hold_delivery w nonce r s = (
  refused (failure payment_deferred none),
  put_in_flight nonce (record { settlement = r; submitted_block = submitted_block w r.tx_hash }) s,
)

unfoldable pub begin_deferred :
    Gateway
    → World
    → PaymentPayload
    → PaymentRequirements
    → PaymentContext
    → ℕ
    → GatewayState
    → Outcome × GatewayState
unfolding settle hold_delivery
begin_deferred g w p reqs pc nonce s = on_success (hold_delivery w nonce) (settle g w p reqs pc s)

-- `stageOf`: `none` where the head is not readable or below the block.
unfoldable pub stage_of : Gateway → World → ℕ → Option Stage
stage_of g w block = w.head >>= λ head.
    if ltb head block
    then none
    else if leb g.confirm_depth (head - block)
    then some Stage.confirmed
    else some Stage.submitted

abbrev pub payment_context :
    PaymentPayload → PaymentRequirements → Option VerifyResult → Stage → PaymentContext
payment_context p reqs vr stage = record {
  payload = p;
  requirements = reqs;
  verification = vr;
  history = none;
  stage = stage;
  risk_score = finite (pos 0);
}

abbrev pub resume_context :
    Gateway → PaymentPayload → PaymentRequirements → Deferred → Stage → PaymentContext
resume_context g p reqs df stage =
    payment_context p reqs
      (some (record {
        is_valid = true;
        invalid_reason = "";
        payer = g.eth.address_hex df.settlement.payer;
      }))
      stage

unfoldable pub resume_decided :
    Gateway → World → ℕ → Deferred → Decision × PolicyState → GatewayState → Outcome × GatewayState
unfolding deliver
resume_decided g w nonce df (d, ps) s =
    let s₁ = with_policy_state ps s in
    if is_approve d.action
    then deliver g w df.settlement (remove_in_flight nonce s₁)
    else (refused (failure (code_or_default d) (some d.reason)), s₁)

unfoldable pub resume_at :
    Gateway
    → World
    → PaymentPayload
    → PaymentRequirements
    → ℕ
    → Deferred
    → Option Stage
    → GatewayState
    → Outcome × GatewayState
unfolding resume_decided enrich policy_decide
resume_at g w p reqs nonce df none s = (refused (failure settlement_error none), s)
resume_at g w p reqs nonce df (some stage) s =
    let pc = enrich g s (resume_context g p reqs df stage) in
    resume_decided g w nonce df (policy_decide g.eth (policy_of g) w.now pc s.policy_state) s

unfoldable pub resume_deferred :
    Gateway
    → World
    → PaymentPayload
    → PaymentRequirements
    → ℕ
    → Deferred
    → GatewayState
    → Outcome × GatewayState
unfolding resume_at stage_of
resume_deferred g w p reqs nonce df s =
    resume_at g w p reqs nonce df (stage_of g w df.submitted_block) s

-- The three outcomes of a decision on a fresh payment.
unfoldable pub act_on :
    Gateway
    → World
    → PaymentPayload
    → PaymentRequirements
    → PaymentContext
    → Option VerifyResult
    → ℕ
    → Decision
    → Action
    → GatewayState
    → Outcome × GatewayState
unfolding settle deliver begin_deferred refusal
act_on g w p reqs pc vr nonce d Action.approve s = on_success (deliver g w) (settle g w p reqs pc s)
act_on g w p reqs pc vr nonce d Action.defer s = begin_deferred g w p reqs pc nonce s
act_on g w p reqs pc vr nonce d _ s = (refused (refusal d pc vr), s)

unfoldable pub after_decision :
    Gateway
    → World
    → PaymentPayload
    → PaymentRequirements
    → PaymentContext
    → Option VerifyResult
    → ℕ
    → Decision × PolicyState
    → GatewayState
    → Outcome × GatewayState
unfolding record_decision act_on
after_decision g w p reqs pc vr nonce (d, ps) s =
    act_on g w p reqs pc vr nonce d d.action
      (record_decision g w pc d false (with_policy_state ps s))

unfoldable pub after_verify :
    Gateway
    → World
    → PaymentPayload
    → PaymentRequirements
    → ℕ
    → Answer VerifyResult
    → GatewayState
    → Outcome × GatewayState
unfolding after_decision enrich policy_decide
after_verify g w p reqs nonce none s = (refused (failure verification_error none), s)
after_verify g w p reqs nonce (some vr) s =
    let pc = enrich g s (payment_context p reqs vr Stage.pre_settlement) in
    after_decision g w p reqs pc vr nonce
      (policy_decide g.eth (policy_of g) w.now pc s.policy_state) s

-- A payment that is not in flight.
unfoldable pub fresh_payment :
    Gateway
    → World
    → PaymentPayload
    → PaymentRequirements
    → ℕ
    → Option Failure
    → GatewayState
    → Outcome × GatewayState
unfolding after_verify
fresh_payment g w p reqs nonce (some fail) s = (refused fail, s)
fresh_payment g w p reqs nonce none s = after_verify g w p reqs nonce (w.verify p reqs) s

unfoldable pub route_payment :
    Gateway
    → World
    → PaymentPayload
    → PaymentRequirements
    → ℕ
    → Option Deferred
    → GatewayState
    → Outcome × GatewayState
unfolding fresh_payment resume_deferred check_resource_binding
route_payment g w p reqs nonce (some df) s = resume_deferred g w p reqs nonce df s
route_payment g w p reqs nonce none s =
    fresh_payment g w p reqs nonce (check_resource_binding g p reqs) s

-- `verifyAndSettle`; a header that does not decode is `none`.
unfoldable pub verify_and_settle :
    Gateway
    → World
    → Option PaymentPayload
    → PaymentRequirements
    → GatewayState
    → Outcome × GatewayState
unfolding route_payment payload_nonce
verify_and_settle g w none reqs s = (refused (failure invalid_payment_header none), s)
verify_and_settle g w (some p) reqs s =
    let nonce = nonce_or_zero (payload_nonce g.eth p) in
    route_payment g w p reqs nonce (lookup nonce s.in_flight) s
