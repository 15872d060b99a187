-- ===== src/Session/Refund.antt =====
-- What a close request does with the money of a session: x402/session.go `handleSession`,
-- `settleSession`.
use stablecoin_x402_gateway.Base.{
  ℕ, ◌≡◌, refl, ap, ◌∙◌, if_false, List, String, Bool, true, false, Option, none, some, some-eq, [],
  ◌∷◌, ◌++◌, inl, inr, Bool-cases, string_eq, beq_self, if◌then◌else◌, arith,
}
use stablecoin_x402_gateway.Base.Int.{ℤ, ◌-ℤ◌, ltb_ℤ, is_positive, -ℤ_parts}
use stablecoin_x402_gateway.Base.Dict.{lookup, lookup-erase}
use stablecoin_x402_gateway.Codes.{settlement_error, session_unknown}
use stablecoin_x402_gateway.Facilitator.{Answer, SettleResult}
use stablecoin_x402_gateway.Gateway.Defs.{
  Gateway, GatewayState, World, PaymentSession, SettlementRecord, journal_append, Call, settle_call,
  refund_call, log_call, failure,
}
use stablecoin_x402_gateway.Gateway.Settle.{
  settlement_entry, notify_settlers, journal_refund, journal_refund_pending,
}
use stablecoin_x402_gateway.Gateway.Preserve.{journal_append-calls}
use stablecoin_x402_gateway.Session.{
  session_closed, not_served, after_close, with_session, handle_session,
}
use stablecoin_x402_gateway.Session.Settle.{
  remove_session, session_record, after_unused, refund_unused, session_journaled, session_answered,
  settle_session,
}

-- The refund that a session is owed: what its budget has left.
abbrev pub owed : PaymentSession → List Call
owed sess =
    if ltb_ℤ sess.spent sess.budget
    then refund_call sess.payer (some (sess.budget -ℤ sess.spent)) ∷ []
    else []

after_unused-calls :
    (g : Gateway) (w : World) (r : SettlementRecord) (unused : ℤ) (tx : Option ℕ) (s : GatewayState)
    → (after_unused g w r unused tx s).calls ≡ s.calls
unfolding after_unused journal_refund journal_refund_pending
after_unused-calls g w r unused none s = journal_append-calls w _ s
after_unused-calls g w r unused (some tx) s = journal_append-calls w _ s

positive_left : (budget spent : ℤ) → is_positive (budget -ℤ spent) ≡ ltb_ℤ spent budget
positive_left budget spent = ground (arith, -ℤ_parts budget spent)

append_nothing : (cs : List Call) → cs ≡ cs ++ []
append_nothing [] = refl
append_nothing (c ∷ cs) = ap (λ x. c ∷ x) (append_nothing cs)

refund_unused-calls :
    (g : Gateway) (w : World) (sess : PaymentSession) (r : SettlementRecord) (s : GatewayState)
    → (refund_unused g w sess r s).calls ≡ s.calls ++ owed sess
unfolding refund_unused
refund_unused-calls g w sess r s = elim (Bool-cases (ltb_ℤ sess.spent sess.budget)) [
  | inl left ↦ rw (positive_left sess.budget sess.spent, left) (after_unused-calls g w r _ _ _)
  | inr spent ↦ rw (positive_left sess.budget sess.spent, spent) (append_nothing s.calls)
]

session_journaled-calls :
    (g : Gateway) (w : World) (sess : PaymentSession) (r : SettlementRecord)
    (x : Bool × GatewayState)
    → x.0 ≡ true
    → ((session_journaled g w sess r x).0 ≡ some r)
      × ((session_journaled g w sess r x).1.calls ≡ x.1.calls ++ owed sess)
unfolding session_journaled notify_settlers
session_journaled-calls g w sess r (false, s) ok = ground arith
session_journaled-calls g w sess r (true, s) ok = (refl, refund_unused-calls g w sess r _)

-- The journal takes the entry of a session's settlement.
abbrev pub TakesEntry : Gateway → World → PaymentSession → SettleResult → GatewayState → Type 0
TakesEntry g w sess sr s =
    (journal_append w (settlement_entry g (session_record g w sess sr))
      (log_call (settle_call sess.payload) s)).0
    ≡ true

settle_session-answered :
    (g : Gateway) (w : World) (sess : PaymentSession) (answer : Answer SettleResult)
    (s : GatewayState)
    → sess.settled ≡ false
    → w.settle sess.payload sess.reqs ≡ answer
    → settle_session g w sess s
      ≡ session_answered g w sess answer (log_call (settle_call sess.payload) s)
unfolding settle_session
settle_session-answered g w sess answer s held answers =
    if_false sess.settled _ _ held
    ∙ ap (λ o. session_answered g w sess o (log_call (settle_call sess.payload) s)) answers

session_answered-calls :
    (g : Gateway) (w : World) (sess : PaymentSession) (sr : SettleResult) (s : GatewayState)
    → sr.success ≡ true
    → TakesEntry g w sess sr s
    → let out =
        session_answered g w sess (some (some sr)) (log_call (settle_call sess.payload) s) in
      (out.0 ≡ some (session_record g w sess sr))
      × (out.1.calls ≡ (s.calls ++ settle_call sess.payload ∷ []) ++ owed sess)
unfolding session_answered
session_answered-calls g w sess sr s success takes =
    let r = session_record g w sess sr in
    let s₁ = log_call (settle_call sess.payload) s in
    let x = journal_append w (settlement_entry g r) s₁ in
    let (answer, calls) = session_journaled-calls g w sess r x takes in
    rw success (
      answer,
      calls ∙ ap (λ cs. cs ++ owed sess) (journal_append-calls w (settlement_entry g r) s₁),
    )

gone : (id : String) (s : GatewayState) → lookup id (remove_session id s).sessions ≡ none
gone id s =
    lookup-erase id id s.sessions ∙ ap (λ b. if b then none else lookup id s.sessions) (beq_self id)

-- The rest of a close request, after the settlement.
after_close-closed :
    (id : String) (r : SettlementRecord) (x : Option SettlementRecord × GatewayState)
    → x.0 ≡ some r
    → ((after_close id x).0 ≡ session_closed r)
      × (lookup id (after_close id x).1.sessions ≡ none)
      × ((after_close id x).1.calls ≡ x.1.calls)
unfolding after_close
after_close-closed id r (none, s) h = ground arith
after_close-closed id r (some q, s) h = (ap session_closed (some-eq h), gone id s, refl)

handle_session-close :
    (g : Gateway) (w : World) (id : String) (sess : PaymentSession) (s : GatewayState)
    → lookup id s.sessions ≡ some sess
    → sess.settled ≡ false
    → handle_session g w true id s ≡ after_close id (settle_session g w sess s)
unfolding handle_session with_session
handle_session-close g w id sess s found held =
    ap (λ o. with_session g w true id o s) found ∙ if_false sess.settled _ _ held

-- A close request on an open session whose settlement succeeds and is journaled answers with that
-- settlement of the whole budget, removes the session, and calls for that settlement and then, where
-- less than the budget was spent, for a refund of the difference, and nothing else.
pub handle_session-closes :
    (g : Gateway) (w : World) (id : String) (sess : PaymentSession) (sr : SettleResult)
    (s : GatewayState)
    → lookup id s.sessions ≡ some sess
    → sess.settled ≡ false
    → w.settle sess.payload sess.reqs ≡ some (some sr)
    → sr.success ≡ true
    → TakesEntry g w sess sr s
    → let (answer, after) = handle_session g w true id s in
      (answer ≡ session_closed (session_record g w sess sr))
      × (lookup id after.sessions ≡ none)
      × (after.calls ≡ (s.calls ++ settle_call sess.payload ∷ []) ++ owed sess)
handle_session-closes g w id sess sr s found held answers success takes =
    let (record_of, calls_of) = session_answered-calls g w sess sr s success takes in
    let shape =
      handle_session-close g w id sess s found held
      ∙ ap (after_close id) (settle_session-answered g w sess (some (some sr)) s held answers) in
    let (closed, absent, same) = after_close-closed id _ _ record_of in
    rw shape (closed, absent, same ∙ calls_of)

-- The settlement does not go through: an error, a nil answer or a failed transaction.
abbrev pub Fails : Answer SettleResult → Type 0
Fails none = Unit
Fails (some none) = Unit
Fails (some (some sr)) = sr.success ≡ false

session_answered-Fails :
    (g : Gateway) (w : World) (sess : PaymentSession) (answer : Answer SettleResult)
    (s : GatewayState)
    → Fails answer
    → session_answered g w sess answer s ≡ (none, s)
unfolding session_answered
session_answered-Fails g w sess none s fails = refl
session_answered-Fails g w sess (some none) s fails = refl
session_answered-Fails g w sess (some (some sr)) s fails = if_false sr.success _ _ fails

-- A close request whose settlement fails answers settlement_error and removes the session all the
-- same: the payment is not settled, no settlement is recorded, and the session's id is unknown to a
-- retry.
pub handle_session-close-Fails :
    (g : Gateway) (w w' : World) (id : String) (close : Bool) (sess : PaymentSession)
    (s : GatewayState)
    → lookup id s.sessions ≡ some sess
    → sess.settled ≡ false
    → Fails (w.settle sess.payload sess.reqs)
    → let (answer, after) = handle_session g w true id s in
      (answer ≡ not_served (failure settlement_error none))
      × (after.settlements ≡ s.settlements)
      × (handle_session g w' close id after ≡ (
        not_served (failure session_unknown (some "unknown or already-settled session")),
        after,
      ))
unfolding after_close with_session handle_session
handle_session-close-Fails g w w' id close sess s found held fails =
    let s₁ = log_call (settle_call sess.payload) s in
    let shape : handle_session g w true id s
        ≡ (not_served (failure settlement_error none), remove_session id s₁) =
      handle_session-close g w id sess s found held
      ∙ ap (after_close id) (
          settle_session-answered g w sess (w.settle sess.payload sess.reqs) s held refl
          ∙ session_answered-Fails g w sess (w.settle sess.payload sess.reqs) s₁ fails) in
    let unknown : handle_session g w' close id (remove_session id s₁) ≡ (
      not_served (failure session_unknown (some "unknown or already-settled session")),
      remove_session id s₁,
    ) =
      ap (λ o. with_session g w' close id o (remove_session id s₁)) (gone id s₁) in
    rw shape (refl, refl, unknown)
