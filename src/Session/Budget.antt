-- ===== src/Session/Budget.antt =====
-- The budget of a payment session: x402/session.go.
use stablecoin_x402_gateway.Base.{
  ℕ, ◌≡◌, refl, sym, ap, subst, ◌∙◌, some-eq, List, String, true, false, Option, none, some,
  string_eq, arith,
}
use stablecoin_x402_gateway.Base.Int.{◌-ℤ◌, ltb_ℤ, ◌≤ℤ◌, +ℤ_parts, -ℤ_parts}
use stablecoin_x402_gateway.Base.Dict.{
  AllValues, erase-AllValues, insert-AllValues, lookup-AllValues,
}
use stablecoin_x402_gateway.Base.Decimal.{set_string-integer_text}
use stablecoin_x402_gateway.Wire.{PaymentPayload, PaymentRequirements, VerifyResult}
use stablecoin_x402_gateway.Wallet.{Authorization}
use stablecoin_x402_gateway.Facilitator.{
  TokenReads, Parsed, parsed, parse_exact_payload, local_verify,
}
use stablecoin_x402_gateway.Facilitator.Verdict.{accepted, local_verify_lem}
use stablecoin_x402_gateway.Journal.{Journal, JournalEntry}
use stablecoin_x402_gateway.Policy.History.{unix}
use stablecoin_x402_gateway.Gateway.Defs.{
  Gateway, GatewayState, World, PaymentSession, requirements, append_where, journal_append,
}
use stablecoin_x402_gateway.Gateway.Preserve.{Preserved}
use stablecoin_x402_gateway.Session.{Request, is_valid_verdict, draw, middleware}
use stablecoin_x402_gateway.Session.Preserve.{SessionsPreserved}
use stablecoin_x402_gateway.Session.Preserve.Requests.{middleware-preserves}

-- The world's facilitator is the local one, with the gateway's library.
abbrev pub IsLocal : Gateway → World → TokenReads → Type 0
IsLocal g w t =
    (p : PaymentPayload) (reqs : PaymentRequirements)
    → w.verify p reqs ≡ local_verify g.eth t (unix w.now) p reqs

abbrev pub IsWithinBudget : PaymentSession → Type 0
IsWithinBudget sess = sess.spent ≤ℤ sess.budget

-- No session has spent more than its budget.
abbrev pub HasBudgets : GatewayState → Type 0
HasBudgets s = AllValues IsWithinBudget s.sessions

abbrev authorization_or : Authorization → Parsed → Authorization
authorization_or a (Parsed.malformed _) = a
authorization_or a (Parsed.parsed b sig) = b

-- The answer that opens a session is a verdict that the payment is worth the price.
local_price :
    (g : Gateway) (w : World) (t : TokenReads) (p : PaymentPayload) (resource : String)
    (v : Option VerifyResult) (a : Authorization) (sig : List ℕ)
    → IsLocal g w t
    → w.verify p (requirements g resource) ≡ some v
    → is_valid_verdict v ≡ true
    → parse_exact_payload g.eth p.payload ≡ parsed a sig
    → g.price ≤ℤ a.value
unfolding requirements accepted
local_price g w t p resource v a sig is_local verified valid parse =
    let reqs = requirements g resource in
    let verdict = local_verify g.eth t (unix w.now) p reqs in
    let answer : verdict ≡ some v = sym (is_local p reqs) ∙ verified in
    let accepts : accepted verdict ≡ true = ap accepted answer ∙ valid_answer v valid in
    let (protocol, (a', sig', parse', terms, signed, fundable)) =
      (local_verify_lem g.eth t (unix w.now) p reqs).0 accepts in
    let (hex, recipient, (price, has_price, covers), in_time, started) = terms in
    let same_price : price ≡ g.price = some-eq (sym has_price ∙ set_string-integer_text g.price) in
    let same_value : a'.value ≡ a.value =
      ap (λ x. (authorization_or a x).value) (sym parse' ∙ parse) in
    subst (λ x. g.price ≤ℤ x) same_value (subst (λ x. x ≤ℤ a'.value) same_price covers)
  where
    valid_answer : (v : Option VerifyResult) → is_valid_verdict v ≡ true → accepted (some v) ≡ true
    valid_answer none h = ground arith
    valid_answer (some v) h = h

pub draw-IsWithinBudget :
    (g : Gateway) (sess : PaymentSession)
    → ltb_ℤ (sess.budget -ℤ sess.spent) g.price ≡ false
    → IsWithinBudget (draw g sess)
draw-IsWithinBudget g sess enough =
    grind (arith, -ℤ_parts sess.budget sess.spent, +ℤ_parts sess.spent g.price)

pub append_where-sessions :
    (w : World) (e : JournalEntry) (j : Option Journal) (s : GatewayState)
    → (append_where w e j s).1.sessions ≡ s.sessions
unfolding append_where
append_where-sessions w e none s = refl
append_where-sessions w e (some j) s = refl

HasBudgets-Preserved : (g : Gateway) (w : World) → Preserved g w HasBudgets
unfolding journal_append
HasBudgets-Preserved g w = record {
  on_journal =
      λ e s h. subst (AllValues IsWithinBudget) (sym (append_where-sessions w e s.journal s)) h;
  on_policy = λ ps s h. h;
  on_call = λ c s h. h;
  on_settlement = λ r s has h. h;
  on_put = λ nonce df s h. h;
  on_remove = λ nonce s h. h;
}

HasBudgets-SessionsPreserved :
    (g : Gateway) (w : World) (t : TokenReads)
    → IsLocal g w t
    → SessionsPreserved g w HasBudgets IsWithinBudget
HasBudgets-SessionsPreserved g w t is_local = record {
  on_put = λ id sess s q h. insert-AllValues IsWithinBudget id sess s.sessions q h;
  on_remove = λ id s h. erase-AllValues IsWithinBudget id s.sessions h;
  on_found = λ id sess s found h. lookup-AllValues IsWithinBudget id sess s.sessions found h;
  on_open = λ p resource v pc a sig verified valid parse.
      local_price g w t p resource v a sig is_local verified valid parse;
  on_draw = λ sess enough q. draw-IsWithinBudget g sess enough;
}

-- Where the local facilitator verifies, a request of any kind that meets sessions which have spent
-- at most their budgets leaves such sessions.
pub middleware-HasBudgets :
    (g : Gateway) (w : World) (t : TokenReads) (req : Request) (s : GatewayState)
    → IsLocal g w t
    → HasBudgets s
    → HasBudgets (middleware g w req s).1
middleware-HasBudgets g w t req s is_local h =
    middleware-preserves g w HasBudgets IsWithinBudget (HasBudgets-Preserved g w)
      (HasBudgets-SessionsPreserved g w t is_local) req s h
