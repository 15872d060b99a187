-- ===== src/Gateway/Preserve.antt =====
-- What settlement and delivery in x402/gateway.go keep: a predicate on the gateway's state that its
-- single changes keep.
use stablecoin_x402_gateway.Base.{
  ℕ, ◌≡◌, refl, ap, String, Bool, true, false, Option, none, some, ◌++◌, [], ◌∷◌, string_eq, nat_eq,
  Bool-cases, Option-cases, inl, inr,
}
use stablecoin_x402_gateway.Base.Dict.{lookup}
use stablecoin_x402_gateway.Wire.{PaymentPayload, PaymentRequirements, VerifyResult}
use stablecoin_x402_gateway.Facilitator.{Answer, SettleResult, Parsed, parse_exact_payload}
use stablecoin_x402_gateway.Journal.{JournalEntry, Journal, append}
use stablecoin_x402_gateway.Journal.Index.{IsIndexed, append-IsIndexed, append-keeps}
use stablecoin_x402_gateway.Policy.Context.{
  Action, Decision, Stage, PaymentContext, payload_nonce, is_approve, approval,
}
use stablecoin_x402_gateway.Policy.Chain.{policy_decide}
use stablecoin_x402_gateway.Policy.State.{PolicyState}
use stablecoin_x402_gateway.Gateway.Defs.{
  Gateway, GatewayState, World, Deferred, SettlementRecord, Outcome, recorded, refused, Failure,
  Call, settle_call, on_success, policy_of, with_policy_state, log_call, enrich,
  check_resource_binding, append_where, journal_append,
}
use stablecoin_x402_gateway.Gateway.Decisions.{record_decision, nonce_or_zero}
use stablecoin_x402_gateway.Gateway.Settle.{
  settlement_entry, settled_record, notify_settlers, settle_failed, after_journal,
  record_settlement, settle_answered, settle, journal_refund, journal_refund_pending, after_refund,
  refund, after_delivery, deliver,
}
use stablecoin_x402_gateway.Gateway.Deferred.{
  put_in_flight, remove_in_flight, hold_delivery, begin_deferred, stage_of, payment_context,
  resume_context, resume_decided, resume_at, resume_deferred, act_on, after_decision, after_verify,
  fresh_payment, route_payment, verify_and_settle,
}
pub mod Requests

-- An entry under this id is in the journal, where there is one.
abbrev pub Journals : String → Option Journal → Type 0
Journals id none = Unit
Journals id (some j) = IsIndexed id j

abbrev pub HasEntry : String → GatewayState → Type 0
HasEntry id s = Journals id s.journal

abbrev pub add_settlement : SettlementRecord → GatewayState → GatewayState
add_settlement r s = record s { settlements = s.settlements ++ r ∷ [] }

pub record Preserved (g : Gateway) (w : World) (P : GatewayState → Type 0) : Type 0 where
  pub on_journal : (e : JournalEntry) (s : GatewayState) → P s → P (journal_append w e s).1
  pub on_policy : (ps : PolicyState) (s : GatewayState) → P s → P (with_policy_state ps s)
  pub on_call : (c : Call) (s : GatewayState) → P s → P (log_call c s)
  pub on_settlement :
      (r : SettlementRecord) (s : GatewayState)
      → HasEntry (g.eth.hash_hex r.tx_hash) s
      → P s
      → P (add_settlement r s)
  pub on_put : (nonce : ℕ) (df : Deferred) (s : GatewayState) → P s → P (put_in_flight nonce df s)
  pub on_remove : (nonce : ℕ) (s : GatewayState) → P s → P (remove_in_flight nonce s)

-- An append changes nothing but the journal.
pub journal_append-none :
    (w : World) (e : JournalEntry) (s : GatewayState)
    → s.journal ≡ none
    → journal_append w e s ≡ (true, s)
unfolding journal_append append_where
journal_append-none w e s absent = ap (λ o. append_where w e o s) absent

pub journal_append-some :
    (w : World) (e : JournalEntry) (s : GatewayState) (j : Journal)
    → s.journal ≡ some j
    → journal_append w e s
      ≡ ((append e (w.write e.id) j).0, record s { journal = some (append e (w.write e.id) j).1 })
unfolding journal_append append_where
journal_append-some w e s j present = ap (λ o. append_where w e o s) present

pub journal_append-HasEntry :
    (w : World) (e : JournalEntry) (s : GatewayState)
    → (journal_append w e s).0 ≡ true
    → HasEntry e.id (journal_append w e s).1
journal_append-HasEntry w e s h = elim (Option-cases s.journal) [
  | inl absent ↦ rw (journal_append-none w e s absent, absent) tt
  | inr (j, present) ↦
      let shape = journal_append-some w e s j present in
      rw shape (append-IsIndexed e (w.write e.id) j (rw shape at h))
]

pub journal_append-keeps :
    (w : World) (e : JournalEntry) (id : String) (s : GatewayState)
    → HasEntry id s
    → HasEntry id (journal_append w e s).1
journal_append-keeps w e id s h = elim (Option-cases s.journal) [
  | inl absent ↦ rw (journal_append-none w e s absent, absent) tt
  | inr (j, present) ↦
      rw (journal_append-some w e s j present)
        (append-keeps id e (w.write e.id) j (rw present at h))
]

append_where-calls :
    (w : World) (e : JournalEntry) (j : Option Journal) (s : GatewayState)
    → (append_where w e j s).1.calls ≡ s.calls
unfolding append_where
append_where-calls w e none s = refl
append_where-calls w e (some j) s = refl

pub journal_append-calls :
    (w : World) (e : JournalEntry) (s : GatewayState) → (journal_append w e s).1.calls ≡ s.calls
unfolding journal_append
journal_append-calls w e s = append_where-calls w e s.journal s

append_where-in_flight :
    (w : World) (e : JournalEntry) (j : Option Journal) (s : GatewayState)
    → (append_where w e j s).1.in_flight ≡ s.in_flight
unfolding append_where
append_where-in_flight w e none s = refl
append_where-in_flight w e (some j) s = refl

pub journal_append-in_flight :
    (w : World) (e : JournalEntry) (s : GatewayState)
    → (journal_append w e s).1.in_flight ≡ s.in_flight
unfolding journal_append
journal_append-in_flight w e s = append_where-in_flight w e s.journal s

module _ (g : Gateway) (w : World) (P : GatewayState → Type 0) (keeps : Preserved g w P) where
  pub record_decision-preserves :
      (pc : PaymentContext) (d : Decision) (settled : Bool) (s : GatewayState)
      → P s
      → P (record_decision g w pc d settled s)
  unfolding record_decision
  record_decision-preserves pc d settled s h = keeps.on_journal _ s h

  pub notify_settlers-preserves :
      (pc : PaymentContext) (ok : Bool) (s : GatewayState) → P s → P (notify_settlers g w pc ok s)
  unfolding notify_settlers
  notify_settlers-preserves pc ok s h = keeps.on_policy _ s h

  after_journal-preserves :
      (pc : PaymentContext) (r : SettlementRecord) (x : Bool × GatewayState)
      → (x.0 ≡ true → HasEntry (g.eth.hash_hex r.tx_hash) x.1)
      → P x.1
      → P (after_journal g w pc r x).1
  unfolding after_journal settle_failed notify_settlers
  after_journal-preserves pc r (false, s) has h = keeps.on_policy _ s h
  after_journal-preserves pc r (true, s) has h =
      record_decision-preserves pc approval true _
        (keeps.on_settlement r _ (has refl) (keeps.on_policy _ s h))

  record_settlement-preserves :
      (pc : PaymentContext) (sr : SettleResult) (x : Parsed) (s : GatewayState)
      → P s
      → P (record_settlement g w pc sr x s).1
  unfolding record_settlement settle_failed
  record_settlement-preserves pc sr (Parsed.malformed _) s h =
      notify_settlers-preserves pc false s h
  record_settlement-preserves pc sr (Parsed.parsed a sig) s h =
      let r = settled_record g w a sr in
      after_journal-preserves pc r (journal_append w (settlement_entry g r) s)
        (journal_append-HasEntry w (settlement_entry g r) s)
        (keeps.on_journal (settlement_entry g r) s h)

  settle_answered-preserves :
      (p : PaymentPayload) (pc : PaymentContext) (answer : Answer SettleResult) (s : GatewayState)
      → P s
      → P (settle_answered g w p pc answer s).1
  unfolding settle_answered settle_failed
  settle_answered-preserves p pc none s h = notify_settlers-preserves pc false s h
  settle_answered-preserves p pc (some none) s h = notify_settlers-preserves pc false s h
  settle_answered-preserves p pc (some (some sr)) s h = elim (Bool-cases sr.success) [
    | inl ok ↦ rw ok (record_settlement-preserves pc sr (parse_exact_payload g.eth p.payload) s h)
    | inr bad ↦ rw bad (notify_settlers-preserves pc false s h)
  ]

  pub settle-preserves :
      (p : PaymentPayload) (reqs : PaymentRequirements) (pc : PaymentContext) (s : GatewayState)
      → P s
      → P (settle g w p reqs pc s).1
  unfolding settle
  settle-preserves p reqs pc s h =
      settle_answered-preserves p pc (w.settle p reqs) _ (keeps.on_call (settle_call p) s h)

  pub after_refund-preserves :
      (r : SettlementRecord) (tx : Option ℕ) (s : GatewayState)
      → P s
      → P (after_refund g w r tx s).1
  unfolding after_refund journal_refund journal_refund_pending
  after_refund-preserves r none s h = keeps.on_journal _ s h
  after_refund-preserves r (some tx) s h = keeps.on_journal _ s h

  refund-preserves : (r : SettlementRecord) (s : GatewayState) → P s → P (refund g w r s).1
  unfolding refund
  refund-preserves r s h = elim (Bool-cases g.has_refunder) [
    | inl able ↦ rw able (after_refund-preserves r _ _ (keeps.on_call _ s h))
    | inr keyless ↦ rw keyless (after_refund-preserves r none s h)
  ]

  after_delivery-preserves :
      (r : SettlementRecord) (tx : Option ℕ) (s : GatewayState)
      → P s
      → P (after_delivery g w r tx s).1
  unfolding after_delivery
  after_delivery-preserves r none s h = refund-preserves r s h
  after_delivery-preserves r (some tx) s h = h

  pub deliver-preserves : (r : SettlementRecord) (s : GatewayState) → P s → P (deliver g w r s).1
  unfolding deliver
  deliver-preserves r s h = elim (Bool-cases g.has_deliverer) [
    | inl able ↦ rw able (after_delivery-preserves r _ _ (keeps.on_call _ s h))
    | inr bare ↦ rw bare h
  ]
