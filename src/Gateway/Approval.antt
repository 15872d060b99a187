-- ===== src/Gateway/Approval.antt =====
-- What stands before a settlement, and a deferred payment's retry: x402/gateway.go
-- `verifyAndSettle`, `resumeDeferred`.
use stablecoin_x402_gateway.Base.{
  ℕ, ◌+◌, ◌≡◌, refl, sym, ap, subst, ◌∙◌, Bool, true, false, Option, none, some, inl, inr, ◌⊎◌,
  nat_eq, beq_self, if◌then◌else◌,
}
use stablecoin_x402_gateway.Base.Dict.{lookup, erase, lookup-erase}
use stablecoin_x402_gateway.Wire.{PaymentPayload, PaymentRequirements, VerifyResult}
use stablecoin_x402_gateway.Facilitator.{Answer}
use stablecoin_x402_gateway.Policy.Context.{
  Action, Decision, Stage, PaymentContext, payload_nonce, is_approve,
}
use stablecoin_x402_gateway.Policy.Chain.{policy_decide}
use stablecoin_x402_gateway.Policy.State.{PolicyState}
use stablecoin_x402_gateway.Gateway.Defs.{
  Gateway, GatewayState, World, Deferred, SettlementRecord, Outcome, recorded, refused, Failure,
  settle_call, on_success, policy_of, with_policy_state, enrich, check_resource_binding,
}
use stablecoin_x402_gateway.Gateway.Decisions.{record_decision, nonce_or_zero}
use stablecoin_x402_gateway.Gateway.Settle.{settle, deliver}
use stablecoin_x402_gateway.Gateway.Deferred.{
  hold_delivery, begin_deferred, payment_context, resume_context, resume_decided, resume_at,
  resume_deferred, remove_in_flight, stage_of, act_on, after_decision, after_verify, fresh_payment,
  route_payment, verify_and_settle,
}
use stablecoin_x402_gateway.Gateway.Preserve.{journal_append-calls}
use stablecoin_x402_gateway.Gateway.Calls.{
  settle_count, settle_count-snoc, settle-calls, deliver-OnlyDelivers,
}

abbrev pub goes_on : Action → Bool
goes_on Action.approve = true
goes_on Action.defer = true
goes_on _ = false

abbrev nonce_of : Gateway → PaymentPayload → ℕ
nonce_of g p = nonce_or_zero (payload_nonce g.eth p)

abbrev decided :
    Gateway
    → World
    → PaymentPayload
    → PaymentRequirements
    → Option VerifyResult
    → GatewayState
    → Decision × PolicyState
decided g w p reqs vr s =
    policy_decide g.eth (policy_of g) w.now
      (enrich g s (payment_context p reqs vr Stage.pre_settlement)) s.policy_state

-- The facilitator answered, and the policy approved or deferred the payment.
abbrev pub IsCleared :
    Gateway → World → PaymentPayload → PaymentRequirements → GatewayState → Type 0
IsCleared g w p reqs s =
    (vr : Option VerifyResult) × (w.verify p reqs ≡ some vr)
    × (goes_on (decided g w p reqs vr s).0.action ≡ true)

-- Nothing is settled, or one payment, and then the condition holds.
abbrev SettlesOnlyIf : Type 0 → GatewayState → GatewayState → Type 0
SettlesOnlyIf C s after =
    (settle_count after.calls ≡ settle_count s.calls)
    ⊎ ((settle_count after.calls ≡ settle_count s.calls + 1) × C)

on_success-settle_count :
    (k : SettlementRecord → GatewayState → Outcome × GatewayState)
    → ((r : SettlementRecord) (s : GatewayState)
        → settle_count (k r s).1.calls ≡ settle_count s.calls)
    → (x : Outcome × GatewayState) → settle_count (on_success k x).1.calls ≡ settle_count x.1.calls
unfolding on_success
on_success-settle_count k next (recorded r, s) = next r s
on_success-settle_count k next (refused f, s) = refl

settle-count :
    (g : Gateway) (w : World) (p : PaymentPayload) (reqs : PaymentRequirements)
    (pc : PaymentContext) (s : GatewayState)
    → settle_count (settle g w p reqs pc s).1.calls ≡ settle_count s.calls + 1
settle-count g w p reqs pc s =
    ap settle_count (settle-calls g w p reqs pc s) ∙ settle_count-snoc s.calls (settle_call p)

act_on-SettlesOnlyIf :
    (g : Gateway) (w : World) (p : PaymentPayload) (reqs : PaymentRequirements)
    (pc : PaymentContext) (vr : Option VerifyResult) (nonce : ℕ) (d : Decision) (a : Action)
    (s : GatewayState)
    → SettlesOnlyIf (goes_on a ≡ true) s (act_on g w p reqs pc vr nonce d a s).1
unfolding act_on begin_deferred hold_delivery
act_on-SettlesOnlyIf g w p reqs pc vr nonce d Action.approve s = inr (
  on_success-settle_count (deliver g w) (λ r s'. (deliver-OnlyDelivers g w r s').0)
        (settle g w p reqs pc s)
      ∙ settle-count g w p reqs pc s,
  refl,
)
act_on-SettlesOnlyIf g w p reqs pc vr nonce d Action.defer s = inr (
  on_success-settle_count (hold_delivery w nonce) (λ r s'. refl) (settle g w p reqs pc s)
      ∙ settle-count g w p reqs pc s,
  refl,
)
act_on-SettlesOnlyIf g w p reqs pc vr nonce d Action.reject s = inl refl
act_on-SettlesOnlyIf g w p reqs pc vr nonce d Action.ask s = inl refl
act_on-SettlesOnlyIf g w p reqs pc vr nonce d Action.require_bond s = inl refl

after_decision-SettlesOnlyIf :
    (g : Gateway) (w : World) (p : PaymentPayload) (reqs : PaymentRequirements)
    (pc : PaymentContext) (vr : Option VerifyResult) (nonce : ℕ) (x : Decision × PolicyState)
    (s : GatewayState)
    → SettlesOnlyIf (goes_on x.0.action ≡ true) s (after_decision g w p reqs pc vr nonce x s).1
unfolding after_decision record_decision
after_decision-SettlesOnlyIf g w p reqs pc vr nonce (d, ps) s =
    let s₁ = record_decision g w pc d false (with_policy_state ps s) in
    let same : settle_count s₁.calls ≡ settle_count s.calls =
      ap settle_count (journal_append-calls w _ (with_policy_state ps s)) in
    elim (act_on-SettlesOnlyIf g w p reqs pc vr nonce d d.action s₁) [
      | inl nothing ↦ inl (nothing ∙ same)
      | inr (one, go) ↦ inr (one ∙ ap (λ n. n + 1) same, go)
    ]

after_verify-SettlesOnlyIf :
    (g : Gateway) (w : World) (p : PaymentPayload) (reqs : PaymentRequirements) (nonce : ℕ)
    (answer : Answer VerifyResult) (s : GatewayState)
    → w.verify p reqs ≡ answer
    → SettlesOnlyIf (IsCleared g w p reqs s) s (after_verify g w p reqs nonce answer s).1
unfolding after_verify
after_verify-SettlesOnlyIf g w p reqs nonce none s verified = inl refl
after_verify-SettlesOnlyIf g w p reqs nonce (some vr) s verified =
    let pc = enrich g s (payment_context p reqs vr Stage.pre_settlement) in
    elim (after_decision-SettlesOnlyIf g w p reqs pc vr nonce (decided g w p reqs vr s) s) [
      | inl nothing ↦ inl nothing
      | inr (one, go) ↦ inr (one, (vr, verified, go))
    ]

-- A fresh payment is bound to its resource, not in flight, and cleared.
abbrev pub IsAdmitted :
    Gateway → World → PaymentPayload → PaymentRequirements → GatewayState → Type 0
IsAdmitted g w p reqs s =
    (lookup (nonce_of g p) s.in_flight ≡ none)
    × (check_resource_binding g p reqs ≡ none)
    × IsCleared g w p reqs s

fresh_payment-SettlesOnlyIf :
    (g : Gateway) (w : World) (p : PaymentPayload) (reqs : PaymentRequirements) (nonce : ℕ)
    (bound : Option Failure) (s : GatewayState)
    → SettlesOnlyIf
        ((bound ≡ none) × IsCleared g w p reqs s)
        s
        (fresh_payment g w p reqs nonce bound s).1
unfolding fresh_payment
fresh_payment-SettlesOnlyIf g w p reqs nonce (some fail) s = inl refl
fresh_payment-SettlesOnlyIf g w p reqs nonce none s =
    elim (after_verify-SettlesOnlyIf g w p reqs nonce (w.verify p reqs) s refl) [
      | inl nothing ↦ inl nothing
      | inr (one, cleared) ↦ inr (one, (refl, cleared))
    ]

-- What the policy says of a deferred payment at a stage, and its state after that.
abbrev redecided :
    Gateway
    → World
    → PaymentPayload
    → PaymentRequirements
    → Deferred
    → Stage
    → GatewayState
    → Decision × PolicyState
redecided g w p reqs df stage s =
    policy_decide g.eth (policy_of g) w.now (enrich g s (resume_context g p reqs df stage))
      s.policy_state

-- Nothing happens outside, and the payment stays in flight.
abbrev pub Waits : GatewayState → GatewayState → Type 0
Waits s after = (after.calls ≡ s.calls) × (after.in_flight ≡ s.in_flight)

-- The chain's head gives the settlement a stage at which the policy approves, and the retry is the
-- delivery of that settlement from the state that no longer has the payment in flight.
abbrev pub IsReleased :
    Gateway
    → World
    → PaymentPayload
    → PaymentRequirements
    → Deferred
    → GatewayState
    → Outcome × GatewayState
    → Type 0
IsReleased g w p reqs df s x =
    (stage : Stage) × (stage_of g w df.submitted_block ≡ some stage)
    × (is_approve (redecided g w p reqs df stage s).0.action ≡ true)
    × (x
        ≡ deliver g w df.settlement (
            remove_in_flight (nonce_of g p)
              (with_policy_state (redecided g w p reqs df stage s).1 s)))

abbrev Resumes :
    Gateway
    → World
    → ℕ
    → Deferred
    → Decision × PolicyState
    → GatewayState
    → Outcome × GatewayState
    → Type 0
Resumes g w nonce df d s x =
    (settle_count x.1.calls ≡ settle_count s.calls)
    × (Waits s x.1
        ⊎ ((lookup nonce x.1.in_flight ≡ none)
            × (is_approve d.0.action ≡ true)
            × (x ≡ deliver g w df.settlement (remove_in_flight nonce (with_policy_state d.1 s)))))

resume_decided-Resumes :
    (g : Gateway) (w : World) (nonce : ℕ) (df : Deferred) (d : Decision × PolicyState)
    (s : GatewayState)
    → Resumes g w nonce df d s (resume_decided g w nonce df d s)
unfolding resume_decided
resume_decided-Resumes g w nonce df (d, ps) s = decided_by (is_approve d.action) refl
  where
    decided_by :
        (approves : Bool)
        → is_approve d.action ≡ approves
        → Resumes g w nonce df (d, ps) s (resume_decided g w nonce df (d, ps) s)
    decided_by false wait = rw wait (refl, inl (refl, refl))
    decided_by true go =
        let s₁ = remove_in_flight nonce (with_policy_state ps s) in
        let (calls, flight) = deliver-OnlyDelivers g w df.settlement s₁ in
        let gone : lookup nonce (erase nonce s.in_flight) ≡ none =
          lookup-erase nonce nonce s.in_flight
          ∙ ap (λ b. if b then none else lookup nonce s.in_flight) (beq_self nonce) in
        rw go (calls, inr (ap (lookup nonce) flight ∙ gone, refl, refl))

-- A retry settles nothing, and waits or is released.
abbrev pub IsResumed :
    Gateway
    → World
    → PaymentPayload
    → PaymentRequirements
    → Deferred
    → GatewayState
    → Outcome × GatewayState
    → Type 0
IsResumed g w p reqs df s x =
    (settle_count x.1.calls ≡ settle_count s.calls)
    × (Waits s x.1 ⊎ ((lookup (nonce_of g p) x.1.in_flight ≡ none) × IsReleased g w p reqs df s x))

resume_at-IsResumed :
    (g : Gateway) (w : World) (p : PaymentPayload) (reqs : PaymentRequirements) (df : Deferred)
    (stage : Option Stage) (s : GatewayState)
    → stage_of g w df.submitted_block ≡ stage
    → IsResumed g w p reqs df s (resume_at g w p reqs (nonce_of g p) df stage s)
unfolding resume_at
resume_at-IsResumed g w p reqs df none s at_stage = (refl, inl (refl, refl))
resume_at-IsResumed g w p reqs df (some stage) s at_stage =
    let (count, how) =
      resume_decided-Resumes g w (nonce_of g p) df (redecided g w p reqs df stage s) s in
    (
      count,
      elim how [
        | inl waits ↦ inl waits
        | inr (gone, approves, same) ↦ inr (gone, (stage, at_stage, approves, same))
      ],
    )

resumed :
    (g : Gateway) (w : World) (p : PaymentPayload) (reqs : PaymentRequirements) (df : Deferred)
    (s : GatewayState)
    → lookup (nonce_of g p) s.in_flight ≡ some df
    → verify_and_settle g w (some p) reqs s ≡ resume_deferred g w p reqs (nonce_of g p) df s
unfolding verify_and_settle route_payment
resumed g w p reqs df s found = ap (λ o. route_payment g w p reqs (nonce_of g p) o s) found

-- A retry of a deferred payment never settles again. Either it calls nothing outside and keeps what
-- is in flight, or afterwards the payment is not in flight, the chain's head gives its settlement a
-- stage at which the policy approves, and the answer and the state are those of the delivery of the
-- settlement, from the state with the payment removed and the policy's state after the decision.
pub verify_and_settle-resumes :
    (g : Gateway) (w : World) (p : PaymentPayload) (reqs : PaymentRequirements) (df : Deferred)
    (s : GatewayState)
    → lookup (nonce_or_zero (payload_nonce g.eth p)) s.in_flight ≡ some df
    → let x = verify_and_settle g w (some p) reqs s in
      (settle_count x.1.calls ≡ settle_count s.calls)
      × (Waits s x.1
          ⊎ ((lookup (nonce_or_zero (payload_nonce g.eth p)) x.1.in_flight ≡ none)
              × IsReleased g w p reqs df s x))
unfolding resume_deferred
verify_and_settle-resumes g w p reqs df s found =
    subst (IsResumed g w p reqs df s) (sym (resumed g w p reqs df s found))
      (resume_at-IsResumed g w p reqs df (stage_of g w df.submitted_block) s refl)

route_payment-SettlesOnlyIf :
    (g : Gateway) (w : World) (p : PaymentPayload) (reqs : PaymentRequirements)
    (df : Option Deferred) (s : GatewayState)
    → lookup (nonce_of g p) s.in_flight ≡ df
    → SettlesOnlyIf (IsAdmitted g w p reqs s) s (route_payment g w p reqs (nonce_of g p) df s).1
unfolding route_payment resume_deferred
route_payment-SettlesOnlyIf g w p reqs (some df) s found =
    inl (resume_at-IsResumed g w p reqs df (stage_of g w df.submitted_block) s refl).0
route_payment-SettlesOnlyIf g w p reqs none s found =
    elim (fresh_payment-SettlesOnlyIf g w p reqs (nonce_of g p) (check_resource_binding g p reqs)
      s) [
        | inl nothing ↦ inl nothing
        | inr (one, (bound, cleared)) ↦ inr (one, (found, bound, cleared))
      ]

-- A payment request calls for at most one settlement, and for one only where the payment is not in
-- flight already, passes the resource binding, was answered for by the facilitator, and was
-- approved or deferred by the policy.
pub verify_and_settle-IsAdmitted :
    (g : Gateway) (w : World) (p : PaymentPayload) (reqs : PaymentRequirements) (s : GatewayState)
    → let after = (verify_and_settle g w (some p) reqs s).1 in
      (settle_count after.calls ≡ settle_count s.calls)
      ⊎ ((settle_count after.calls ≡ settle_count s.calls + 1) × IsAdmitted g w p reqs s)
unfolding verify_and_settle
verify_and_settle-IsAdmitted g w p reqs s =
    route_payment-SettlesOnlyIf g w p reqs (lookup (nonce_of g p) s.in_flight) s refl
