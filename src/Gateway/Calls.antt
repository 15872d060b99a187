-- ===== src/Gateway/Calls.antt =====
-- The calls that settlement and delivery make: x402/gateway.go `settle`, `deliver`.
use stablecoin_x402_gateway.Base.{
  ℕ, ◌+◌, ◌≡◌, refl, ap, ◌∙◌, List, Bool, true, false, Option, none, some, [], ◌∷◌, ◌++◌,
  Bool-cases, inl, inr, if◌then◌else◌, arith,
}
use stablecoin_x402_gateway.Wire.{PaymentPayload, PaymentRequirements}
use stablecoin_x402_gateway.Facilitator.{Answer, SettleResult, Parsed, parse_exact_payload}
use stablecoin_x402_gateway.Policy.Context.{PaymentContext}
use stablecoin_x402_gateway.Gateway.Defs.{
  Gateway, GatewayState, World, SettlementRecord, Call, settle_call, deliver_call, refund_call,
  log_call, journal_append,
}
use stablecoin_x402_gateway.Gateway.Decisions.{record_decision}
use stablecoin_x402_gateway.Gateway.Settle.{
  settlement_entry, settled_record, notify_settlers, settle_failed, after_journal,
  record_settlement, settle_answered, settle, journal_refund, journal_refund_pending, after_refund,
  refund, after_delivery, deliver,
}
use stablecoin_x402_gateway.Gateway.Preserve.{journal_append-calls, journal_append-in_flight}

after_journal-calls :
    (g : Gateway) (w : World) (pc : PaymentContext) (r : SettlementRecord) (x : Bool × GatewayState)
    → (after_journal g w pc r x).1.calls ≡ x.1.calls
unfolding after_journal settle_failed notify_settlers record_decision
after_journal-calls g w pc r (false, s) = refl
after_journal-calls g w pc r (true, s) = journal_append-calls w _ _

record_settlement-calls :
    (g : Gateway) (w : World) (pc : PaymentContext) (sr : SettleResult) (x : Parsed)
    (s : GatewayState)
    → (record_settlement g w pc sr x s).1.calls ≡ s.calls
unfolding record_settlement settle_failed notify_settlers
record_settlement-calls g w pc sr (Parsed.malformed _) s = refl
record_settlement-calls g w pc sr (Parsed.parsed a sig) s =
    let r = settled_record g w a sr in
    after_journal-calls g w pc r (journal_append w (settlement_entry g r) s)
    ∙ journal_append-calls w (settlement_entry g r) s

settle_answered-calls :
    (g : Gateway) (w : World) (p : PaymentPayload) (pc : PaymentContext)
    (answer : Answer SettleResult) (s : GatewayState)
    → (settle_answered g w p pc answer s).1.calls ≡ s.calls
unfolding settle_answered settle_failed notify_settlers
settle_answered-calls g w p pc none s = refl
settle_answered-calls g w p pc (some none) s = refl
settle_answered-calls g w p pc (some (some sr)) s = elim (Bool-cases sr.success) [
  | inl ok ↦ rw ok (record_settlement-calls g w pc sr (parse_exact_payload g.eth p.payload) s)
  | inr bad ↦ rw bad refl
]

-- Settling makes one call, whatever it answers.
pub settle-calls :
    (g : Gateway) (w : World) (p : PaymentPayload) (reqs : PaymentRequirements)
    (pc : PaymentContext) (s : GatewayState)
    → (settle g w p reqs pc s).1.calls ≡ s.calls ++ settle_call p ∷ []
unfolding settle
settle-calls g w p reqs pc s = settle_answered-calls g w p pc (w.settle p reqs) _

abbrev pub is_settle : Call → Bool
is_settle (settle_call _) = true
is_settle _ = false

abbrev pub settle_count : List Call → ℕ
settle_count [] = 0
settle_count (c ∷ cs) = (if is_settle c then 1 else 0) + settle_count cs

pub settle_count-snoc :
    (cs : List Call) (c : Call)
    → settle_count (cs ++ c ∷ []) ≡ settle_count cs + (if is_settle c then 1 else 0)
settle_count-snoc [] c = omega arith
settle_count-snoc (d ∷ cs) c = omega (arith, settle_count-snoc cs c)

-- Delivery settles nothing and leaves the payments in flight alone.
abbrev pub OnlyDelivers : GatewayState → GatewayState → Type 0
OnlyDelivers s after =
    (settle_count after.calls ≡ settle_count s.calls) × (after.in_flight ≡ s.in_flight)

after_refund-OnlyDelivers :
    (g : Gateway) (w : World) (r : SettlementRecord) (tx : Option ℕ) (s : GatewayState)
    → OnlyDelivers s (after_refund g w r tx s).1
unfolding after_refund journal_refund journal_refund_pending
after_refund-OnlyDelivers g w r none s =
    (ap settle_count (journal_append-calls w _ s), journal_append-in_flight w _ s)
after_refund-OnlyDelivers g w r (some tx) s =
    (ap settle_count (journal_append-calls w _ s), journal_append-in_flight w _ s)

refund-OnlyDelivers :
    (g : Gateway) (w : World) (r : SettlementRecord) (s : GatewayState)
    → OnlyDelivers s (refund g w r s).1
unfolding refund
refund-OnlyDelivers g w r s = elim (Bool-cases g.has_refunder) [
  | inl able ↦
      let c = refund_call r.payer r.amount in
      let (calls, flight) =
        after_refund-OnlyDelivers g w r (w.refund r.payer r.amount) (log_call c s) in
      rw able (omega (arith, calls, settle_count-snoc s.calls c), flight)
  | inr keyless ↦ rw keyless (after_refund-OnlyDelivers g w r none s)
]

after_delivery-OnlyDelivers :
    (g : Gateway) (w : World) (r : SettlementRecord) (tx : Option ℕ) (s : GatewayState)
    → OnlyDelivers s (after_delivery g w r tx s).1
unfolding after_delivery
after_delivery-OnlyDelivers g w r none s = refund-OnlyDelivers g w r s
after_delivery-OnlyDelivers g w r (some tx) s = (refl, refl)

pub deliver-OnlyDelivers :
    (g : Gateway) (w : World) (r : SettlementRecord) (s : GatewayState)
    → OnlyDelivers s (deliver g w r s).1
unfolding deliver
deliver-OnlyDelivers g w r s = elim (Bool-cases g.has_deliverer) [
  | inl able ↦
      let c = deliver_call r.payer in
      let (calls, flight) = after_delivery-OnlyDelivers g w r (w.deliver r.payer) (log_call c s) in
      rw able (omega (arith, calls, settle_count-snoc s.calls c), flight)
  | inr bare ↦ rw bare (refl, refl)
]
