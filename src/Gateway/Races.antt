-- ===== src/Gateway/Races.antt =====
-- Two retries of one deferred payment that interleave: x402/gateway.go `verifyAndSettle` reads the
-- in-flight map under its lock, and `resumeDeferred` deletes from it under the lock later.
use stablecoin_x402_gateway.Base.{
  ℕ, ◌+◌, ◌≡◌, refl, ap, ◌∙◌, Bool, true, false, Option, none, some, List, [], ◌∷◌, ◌++◌, nat_eq,
  Bool-cases, inl, inr, if◌then◌else◌, if_true, arith,
}
use stablecoin_x402_gateway.Base.Dict.{lookup}
use stablecoin_x402_gateway.Wire.{PaymentPayload, PaymentRequirements}
use stablecoin_x402_gateway.Policy.Context.{Decision, Stage, payload_nonce, is_approve}
use stablecoin_x402_gateway.Policy.Chain.{policy_decide}
use stablecoin_x402_gateway.Policy.State.{PolicyState}
use stablecoin_x402_gateway.Gateway.Defs.{
  Gateway, GatewayState, World, Deferred, SettlementRecord, Outcome, Call, deliver_call,
  refund_call, log_call, policy_of, with_policy_state, enrich,
}
use stablecoin_x402_gateway.Gateway.Decisions.{nonce_or_zero}
use stablecoin_x402_gateway.Gateway.Settle.{
  journal_refund, journal_refund_pending, after_refund, refund, after_delivery, deliver,
}
use stablecoin_x402_gateway.Gateway.Deferred.{
  resume_context, resume_decided, resume_at, resume_deferred, remove_in_flight, stage_of,
  route_payment,
}
use stablecoin_x402_gateway.Gateway.Preserve.{journal_append-calls}

-- A request before its look into the map, after it, and at its end.
pub data Retry : Type 0 where
  starting : Retry
  looked : Option Deferred → Retry
  answered : Outcome → Retry

unfoldable pub retry_step :
    Gateway
    → World
    → PaymentPayload
    → PaymentRequirements
    → Retry
    → GatewayState
    → Retry × GatewayState
unfolding route_payment
retry_step g w p reqs starting s =
    (looked (lookup (nonce_or_zero (payload_nonce g.eth p)) s.in_flight), s)
retry_step g w p reqs (looked df) s =
    let (o, s') = route_payment g w p reqs (nonce_or_zero (payload_nonce g.eth p)) df s in
    (answered o, s')
retry_step g w p reqs (answered o) s = (answered o, s)

-- Two requests with the same payment, and the state that they share.
pub data Interleaves (g : Gateway) (w : World) (p : PaymentPayload) (reqs : PaymentRequirements)
    : Retry → Retry → GatewayState → Retry → Retry → GatewayState → Type 0 where
  stop : {a b : Retry} {s : GatewayState} → Interleaves g w p reqs a b s a b s
  first :
      {a b a' b' : Retry} {s s' : GatewayState}
      → Interleaves g w p reqs
          (retry_step g w p reqs a s).0
          b
          (retry_step g w p reqs a s).1
          a'
          b'
          s'
      → Interleaves g w p reqs a b s a' b' s'
  second :
      {a b a' b' : Retry} {s s' : GatewayState}
      → Interleaves g w p reqs a
          (retry_step g w p reqs b s).0
          (retry_step g w p reqs b s).1
          a'
          b'
          s'
      → Interleaves g w p reqs a b s a' b' s'

abbrev is_delivery : Call → Bool
is_delivery (deliver_call _) = true
is_delivery _ = false

abbrev pub delivery_count : List Call → ℕ
delivery_count [] = 0
delivery_count (c ∷ cs) = (if is_delivery c then 1 else 0) + delivery_count cs

delivery_count-snoc :
    (cs : List Call) (c : Call)
    → delivery_count (cs ++ c ∷ []) ≡ delivery_count cs + (if is_delivery c then 1 else 0)
delivery_count-snoc [] c = omega arith
delivery_count-snoc (d ∷ cs) c = omega (arith, delivery_count-snoc cs c)

after_refund-deliveries :
    (g : Gateway) (w : World) (r : SettlementRecord) (tx : Option ℕ) (s : GatewayState)
    → delivery_count (after_refund g w r tx s).1.calls ≡ delivery_count s.calls
unfolding after_refund journal_refund journal_refund_pending
after_refund-deliveries g w r none s = ap delivery_count (journal_append-calls w _ s)
after_refund-deliveries g w r (some tx) s = ap delivery_count (journal_append-calls w _ s)

after_delivery-deliveries :
    (g : Gateway) (w : World) (r : SettlementRecord) (tx : Option ℕ) (s : GatewayState)
    → delivery_count (after_delivery g w r tx s).1.calls ≡ delivery_count s.calls
unfolding after_delivery refund
after_delivery-deliveries g w r (some tx) s = refl
after_delivery-deliveries g w r none s = elim (Bool-cases g.has_refunder) [
  | inl able ↦
      let c = refund_call r.payer r.amount in
      rw able (
        after_refund-deliveries g w r (w.refund r.payer r.amount) (log_call c s)
        ∙ omega (arith, delivery_count-snoc s.calls c))
  | inr keyless ↦ rw keyless (after_refund-deliveries g w r none s)
]

deliver-deliveries :
    (g : Gateway) (w : World) (r : SettlementRecord) (s : GatewayState)
    → g.has_deliverer ≡ true
    → delivery_count (deliver g w r s).1.calls ≡ delivery_count s.calls + 1
unfolding deliver
deliver-deliveries g w r s able =
    let c = deliver_call r.payer in
    ap (λ (x : Outcome × GatewayState). delivery_count x.1.calls) (if_true g.has_deliverer _ _ able)
    ∙ after_delivery-deliveries g w r (w.deliver r.payer) (log_call c s)
    ∙ delivery_count-snoc s.calls c

-- The policy approves the payment at the stage, whatever it has seen before.
abbrev pub AlwaysApproves :
    Gateway → World → PaymentPayload → PaymentRequirements → Deferred → Stage → Type 0
AlwaysApproves g w p reqs df stage =
    (s : GatewayState)
    → is_approve
        (policy_decide g.eth (policy_of g) w.now (enrich g s (resume_context g p reqs df stage))
          s.policy_state).0.action
      ≡ true

resume_decided-deliveries :
    (g : Gateway) (w : World) (nonce : ℕ) (df : Deferred) (x : Decision × PolicyState)
    (s : GatewayState)
    → g.has_deliverer ≡ true
    → is_approve x.0.action ≡ true
    → delivery_count (resume_decided g w nonce df x s).1.calls ≡ delivery_count s.calls + 1
unfolding resume_decided
resume_decided-deliveries g w nonce df (d, ps) s able approves =
    ap (λ (x : Outcome × GatewayState). delivery_count x.1.calls)
      (if_true (is_approve d.action) _ _ approves)
    ∙ deliver-deliveries g w df.settlement (remove_in_flight nonce (with_policy_state ps s)) able

resume_deferred-deliveries :
    (g : Gateway) (w : World) (p : PaymentPayload) (reqs : PaymentRequirements) (nonce : ℕ)
    (df : Deferred) (stage : Stage) (s : GatewayState)
    → g.has_deliverer ≡ true
    → stage_of g w df.submitted_block ≡ some stage
    → AlwaysApproves g w p reqs df stage
    → delivery_count (resume_deferred g w p reqs nonce df s).1.calls ≡ delivery_count s.calls + 1
unfolding resume_deferred resume_at
resume_deferred-deliveries g w p reqs nonce df stage s able at_stage approves =
    ap (λ o. delivery_count (resume_at g w p reqs nonce df o s).1.calls) at_stage
    ∙ resume_decided-deliveries g w nonce df
        (policy_decide g.eth (policy_of g) w.now (enrich g s (resume_context g p reqs df stage))
          s.policy_state)
        s able (approves s)

-- Two retries of a deferred payment that its policy approves can interleave so that both look
-- before either deletes, and then the asset is delivered twice.
pub retries-deliver_twice :
    (g : Gateway) (w : World) (p : PaymentPayload) (reqs : PaymentRequirements) (df : Deferred)
    (stage : Stage) (s : GatewayState)
    → lookup (nonce_or_zero (payload_nonce g.eth p)) s.in_flight ≡ some df
    → g.has_deliverer ≡ true
    → stage_of g w df.submitted_block ≡ some stage
    → AlwaysApproves g w p reqs df stage
    → (a b : Outcome) × (s' : GatewayState) × Interleaves g w p reqs starting starting s
        (answered a)
        (answered b)
        s'
      × (delivery_count s'.calls ≡ delivery_count s.calls + 2)
unfolding retry_step route_payment
retries-deliver_twice g w p reqs df stage s found able at_stage approves =
    let nonce = nonce_or_zero (payload_nonce g.eth p) in
    let here = lookup nonce s.in_flight in
    let x = route_payment g w p reqs nonce here s in
    let y = route_payment g w p reqs nonce here x.1 in
    let one : delivery_count x.1.calls ≡ delivery_count s.calls + 1 =
      ap (λ o. delivery_count (route_payment g w p reqs nonce o s).1.calls) found
      ∙ resume_deferred-deliveries g w p reqs nonce df stage s able at_stage approves in
    let two : delivery_count y.1.calls ≡ delivery_count x.1.calls + 1 =
      ap (λ o. delivery_count (route_payment g w p reqs nonce o x.1).1.calls) found
      ∙ resume_deferred-deliveries g w p reqs nonce df stage x.1 able at_stage approves in
    (x.0, y.0, y.1, first (second (first (second stop))), omega (arith, one, two))
