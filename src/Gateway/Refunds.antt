-- ===== src/Gateway/Refunds.antt =====
-- A delivery that fails after the settlement: x402/gateway.go `deliver`, `refund`.
use Prim.Native.String.{◌++◌ as join_text}
use stablecoin_x402_gateway.Base.{
  ℕ, ◌≡◌, refl, sym, ap, ◌∙◌, String, Bool, true, false, Option, List, [], ◌∷◌, ◌++◌, if◌then◌else◌,
  none, some, string_eq, if_true,
}
use stablecoin_x402_gateway.Base.Int.{pos}
use stablecoin_x402_gateway.Base.Dict.{lookup}
use stablecoin_x402_gateway.Policy.History.{unix}
use stablecoin_x402_gateway.Codes.{delivery_failed}
use stablecoin_x402_gateway.Journal.{
  Journal, JournalEntry, WriteOutcome, written, append, after_entry, write_line, record_entry,
}
use stablecoin_x402_gateway.Journal.Recovery.{append-new}
use stablecoin_x402_gateway.Gateway.Defs.{
  Gateway, GatewayState, World, SettlementRecord, Outcome, refused, failure, Call, deliver_call,
  refund_call, log_call, big_text, journal_append,
}
use stablecoin_x402_gateway.Gateway.Settle.{
  refund_entry, refund_pending_entry, journal_refund, journal_refund_pending, after_refund, refund,
  after_delivery, deliver,
}
use stablecoin_x402_gateway.Gateway.Preserve.{journal_append-some, journal_append-calls}

record_entry-entries :
    (e : JournalEntry) (j : Journal)
    → lookup e.id j.index ≡ none
    → (record_entry e j).entries ≡ j.entries ++ e ∷ []
unfolding record_entry
record_entry-entries e j new = rw (new, record_entry) refl

append-entries :
    (e : JournalEntry) (outcome : WriteOutcome) (j : Journal)
    → lookup e.id j.index ≡ none
    → outcome ≡ written
    → (append e outcome j).1.entries ≡ j.entries ++ e ∷ []
unfolding after_entry write_line
append-entries e outcome j new writes =
    rw (append-new e outcome j new, writes) (record_entry-entries e _ new)

-- The journal after the state has this entry at its end.
abbrev Ends : JournalEntry → Journal → GatewayState → Type 0
Ends e j after = (j' : Journal) × (after.journal ≡ some j') × (j'.entries ≡ j.entries ++ e ∷ [])

journal_append-Ends :
    (w : World) (e : JournalEntry) (s : GatewayState) (j : Journal)
    → s.journal ≡ some j
    → lookup e.id j.index ≡ none
    → w.write e.id ≡ written
    → Ends e j (journal_append w e s).1
journal_append-Ends w e s j present new writes = (
  (append e (w.write e.id) j).1,
  ap (λ (x : Bool × GatewayState). x.1.journal) (journal_append-some w e s j present),
  append-entries e (w.write e.id) j new writes,
)

-- The transaction of the refund, if there is a refunder and its transfer succeeds.
abbrev pub refund_tx : Gateway → World → SettlementRecord → Option ℕ
refund_tx g w r = if g.has_refunder then w.refund r.payer r.amount else none

-- What is asked of the refunder.
abbrev pub refund_calls : Gateway → SettlementRecord → List Call
refund_calls g r = if g.has_refunder then refund_call r.payer r.amount ∷ [] else []

-- The entry for a refund of the whole amount to the payer: pending under the settlement, or made in
-- a transaction.
abbrev pub refund_owed : Gateway → World → SettlementRecord → Option ℕ → JournalEntry
refund_owed g w r none = record {
  id = join_text (g.eth.hash_hex r.tx_hash) ":refund_pending";
  payer = g.eth.address_hex r.payer;
  amount = big_text r.amount;
  tx_hash = g.eth.hash_hex r.tx_hash;
  network = g.network;
  at = pos (unix w.now);
  kind = "refund_pending";
  receipt = none;
  decision = none;
  revocation = none;
}
refund_owed g w r (some tx) = record {
  id = g.eth.hash_hex tx;
  payer = g.eth.address_hex r.payer;
  amount = big_text r.amount;
  tx_hash = g.eth.hash_hex tx;
  network = g.network;
  at = pos (unix w.now);
  kind = "refund";
  receipt = none;
  decision = none;
  revocation = none;
}

-- Delivery failed, and the journal ends with the entry of the refund.
abbrev IsRefunded :
    Gateway → World → SettlementRecord → Journal → Option ℕ → Outcome × GatewayState → Type 0
IsRefunded g w r j tx x =
    (x.0 ≡ refused (failure delivery_failed none)) × Ends (refund_owed g w r tx) j x.1

after_refund-IsRefunded :
    (g : Gateway) (w : World) (r : SettlementRecord) (tx : Option ℕ) (s : GatewayState)
    (j : Journal)
    → s.journal ≡ some j
    → lookup (refund_owed g w r tx).id j.index ≡ none
    → ((id : String) → w.write id ≡ written)
    → IsRefunded g w r j tx (after_refund g w r tx s)
unfolding after_refund journal_refund journal_refund_pending refund_entry refund_pending_entry
after_refund-IsRefunded g w r none s j present new writes =
    (refl, journal_append-Ends w (refund_owed g w r none) s j present new (writes _))
after_refund-IsRefunded g w r (some tx) s j present new writes =
    (refl, journal_append-Ends w (refund_owed g w r (some tx)) s j present new (writes _))

after_refund-calls :
    (g : Gateway) (w : World) (r : SettlementRecord) (tx : Option ℕ) (s : GatewayState)
    → (after_refund g w r tx s).1.calls ≡ s.calls
unfolding after_refund journal_refund journal_refund_pending
after_refund-calls g w r none s = journal_append-calls w _ s
after_refund-calls g w r (some tx) s = journal_append-calls w _ s

-- The state in which the refunder was asked, if there is one.
abbrev asked : Gateway → SettlementRecord → GatewayState → GatewayState
asked g r s = record s { calls = s.calls ++ refund_calls g r }

append_nothing : (cs : List Call) → cs ++ [] ≡ cs
append_nothing [] = refl
append_nothing (c ∷ cs) = ap (λ x. c ∷ x) (append_nothing cs)

refund-after_refund :
    (g : Gateway) (w : World) (r : SettlementRecord) (s : GatewayState)
    → refund g w r s ≡ after_refund g w r (refund_tx g w r) (asked g r s)
unfolding refund
refund-after_refund g w r s = either g.has_refunder
  where
    either :
        (able : Bool)
        → (if able
            then after_refund g w r
                (w.refund r.payer r.amount)
                (log_call (refund_call r.payer r.amount) s)
            else after_refund g w r none s)
          ≡ after_refund g w r (if able then w.refund r.payer r.amount else none) (record s {
            calls = s.calls ++ (if able then refund_call r.payer r.amount ∷ [] else []);
          })
    either true = refl
    either false =
        ap (λ cs. after_refund g w r none (record s { calls = cs })) (sym (append_nothing s.calls))

deliver-refund :
    (g : Gateway) (w : World) (r : SettlementRecord) (s : GatewayState)
    → g.has_deliverer ≡ true
    → w.deliver r.payer ≡ none
    → deliver g w r s ≡ refund g w r (log_call (deliver_call r.payer) s)
unfolding deliver after_delivery
deliver-refund g w r s delivers fails =
    if_true g.has_deliverer _ _ delivers
    ∙ ap (λ o. after_delivery g w r o (log_call (deliver_call r.payer) s)) fails

-- A delivery that fails, where a journal is attached, has no entry yet under the id of the refund and
-- takes every write: the answer is delivery_failed, what is asked outside is the delivery and then,
-- where the gateway has a refunder, the refund of the whole amount to the payer, and the journal gets
-- one entry: the refund with its transaction where the transfer succeeded, and otherwise the whole
-- amount as pending under the settlement.
pub deliver-IsMadeGood :
    (g : Gateway) (w : World) (r : SettlementRecord) (s : GatewayState) (j : Journal)
    → g.has_deliverer ≡ true
    → w.deliver r.payer ≡ none
    → s.journal ≡ some j
    → lookup (refund_owed g w r (refund_tx g w r)).id j.index ≡ none
    → ((id : String) → w.write id ≡ written)
    → let (answer, after) = deliver g w r s in
      (answer ≡ refused (failure delivery_failed none))
      × (after.calls ≡ (s.calls ++ deliver_call r.payer ∷ []) ++ refund_calls g r)
      × (j' : Journal) × (after.journal ≡ some j')
      × (j'.entries ≡ j.entries ++ refund_owed g w r (refund_tx g w r) ∷ [])
deliver-IsMadeGood g w r s j delivers fails present new writes =
    let s₁ = asked g r (log_call (deliver_call r.payer) s) in
    let shape = deliver-refund g w r s delivers fails ∙ refund-after_refund g w r _ in
    let (answer, ends) = after_refund-IsRefunded g w r (refund_tx g w r) s₁ j present new writes in
    rw shape (answer, after_refund-calls g w r (refund_tx g w r) s₁, ends.0, ends.1, ends.2)
