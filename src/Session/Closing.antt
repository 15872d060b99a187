-- ===== src/Session/Closing.antt =====
-- How long a session serves, and how it closes: x402/session.go.
use stablecoin_x402_gateway.Base.{
  ℕ, ◌+◌, ◌*◌, ◌≡◌, refl, sym, ap, subst, ◌∙◌, List, String, Bool, true, false, ◌||◌, Option, none,
  some, [], ◌∷◌, inl, inr, ◌⊎◌, Bool-cases, string_eq, beq_self, if◌then◌else◌, arith,
}
use stablecoin_x402_gateway.Base.Int.{ℤ, pos, ◌-ℤ◌, ◌+ℤ◌, ltb_ℤ, ◌≤ℤ◌, +ℤ_parts}
use stablecoin_x402_gateway.Base.Dict.{lookup, lookup-insert, lookup-erase}
use stablecoin_x402_gateway.Gateway.Defs.{
  Gateway, GatewayState, World, PaymentSession, SettlementRecord, journal_append,
}
use stablecoin_x402_gateway.Gateway.Preserve.{Preserved}
use stablecoin_x402_gateway.Session.{
  Response, in_session, after_exhausted, is_expiring, draw, continue_session, with_session,
  handle_session,
}
use stablecoin_x402_gateway.Session.Settle.{put_session, remove_session, settle_session}
use stablecoin_x402_gateway.Session.Preserve.{settle_session-preserves}
use stablecoin_x402_gateway.Session.Budget.{
  IsWithinBudget, draw-IsWithinBudget, append_where-sessions,
}

-- The state's session under an id, which a settlement leaves alone.
abbrev Holds : String → Option PaymentSession → GatewayState → Type 0
Holds id found s = lookup id s.sessions ≡ found

Holds-Preserved :
    (g : Gateway) (w : World) (id : String) (found : Option PaymentSession)
    → Preserved g w (Holds id found)
unfolding journal_append
Holds-Preserved g w id found = record {
  on_journal = λ e s h. ap (lookup id) (append_where-sessions w e s.journal s) ∙ h;
  on_policy = λ ps s h. h;
  on_call = λ c s h. h;
  on_settlement = λ r s has h. h;
  on_put = λ nonce df s h. h;
  on_remove = λ nonce s h. h;
}

abbrev is_in_session : Response → Bool
is_in_session (in_session _) = true
is_in_session _ = false

-- What a continuation does to the session under its id: it serves and draws, or it does not serve,
-- and keeps the session or removes it.
abbrev Continues : Gateway → String → PaymentSession → Response × GatewayState → Type 0
Continues g id sess x =
    ((is_in_session x.0 ≡ true)
      × (ltb_ℤ (sess.budget -ℤ sess.spent) g.price ≡ false)
      × Holds id (some (draw g sess)) x.1)
    ⊎ ((is_in_session x.0 ≡ false) × (Holds id (some sess) x.1 ⊎ Holds id none x.1))

remove_session-Holds : (id : String) (s : GatewayState) → Holds id none (remove_session id s)
remove_session-Holds id s =
    lookup-erase id id s.sessions ∙ ap (λ b. if b then none else lookup id s.sessions) (beq_self id)

put_session-Holds :
    (id : String) (sess : PaymentSession) (s : GatewayState)
    → Holds id (some sess) (put_session id sess s)
put_session-Holds id sess s =
    lookup-insert id id sess s.sessions
    ∙ ap (λ b. if b then some sess else lookup id s.sessions) (beq_self id)

after_exhausted-Continues :
    (g : Gateway) (id : String) (expiring : Bool) (sess : PaymentSession)
    (x : Option SettlementRecord × GatewayState)
    → Holds id (some sess) x.1
    → Continues g id sess (after_exhausted id expiring x)
unfolding after_exhausted
after_exhausted-Continues g id expiring sess (none, s) h = inr (refl, inl h)
after_exhausted-Continues g id expiring sess (some r, s) h =
    inr (refl, inr (remove_session-Holds id s))

continue_session-Continues :
    (g : Gateway) (w : World) (id : String) (sess : PaymentSession) (s : GatewayState)
    → Holds id (some sess) s
    → Continues g id sess (continue_session g w id sess s)
unfolding continue_session
continue_session-Continues g w id sess s h =
    let short = ltb_ℤ (sess.budget -ℤ sess.spent) g.price in
    elim (Bool-cases (is_expiring w.now sess || short)) [
      | inl over ↦ rw over (
          after_exhausted-Continues g id (is_expiring w.now sess) sess (settle_session g w sess s) (
            settle_session-preserves g w (Holds id (some sess)) (Holds-Preserved g w id (some sess))
              sess s h))
      | inr going ↦ rw going (
          inl (
            refl,
            not_either (is_expiring w.now sess) short going,
            put_session-Holds id (draw g sess) s,
          ))
    ]
  where
    not_either : (a b : Bool) → a || b ≡ false → b ≡ false
    not_either a b e = ground arith

handle_session-Continues :
    (g : Gateway) (w : World) (id : String) (sess : PaymentSession) (s : GatewayState)
    → Holds id (some sess) s
    → Continues g id sess (handle_session g w false id s)
unfolding handle_session with_session
handle_session-Continues g w id sess s h =
    subst (λ o. Continues g id sess (with_session g w false id o s)) (sym h)
      (either sess.settled _ _ (inr (refl, inl h)) (continue_session-Continues g w id sess s h))
  where
    either :
        (b : Bool) (x y : Response × GatewayState)
        → Continues g id sess x
        → Continues g id sess y
        → Continues g id sess (if b then x else y)
    either true x y px py = px
    either false x y px py = py

-- The requests of a session that are served, one after another, in the worlds that they meet.
unfoldable pub served : Gateway → String → List World → GatewayState → ℕ
served g id [] s = 0
served g id (w ∷ ws) s =
    let (r, s') = handle_session g w false id s in
    let rest = served g id ws s' in if is_in_session r then rest + 1 else rest

served-none :
    (g : Gateway) (id : String) (ws : List World) (s : GatewayState)
    → Holds id none s
    → served g id ws s ≡ 0
unfolding served handle_session with_session
served-none g id [] s h = refl
served-none g id (w ∷ ws) s h =
    subst
      (λ (o : Option PaymentSession).
        (let (r, s') = with_session g w false id o s in
          let rest = served g id ws s' in if is_in_session r then rest + 1 else rest)
        ≡ 0)
      (sym h) (served-none g id ws s h)

one_more :
    (price spent budget : ℤ) (p k : ℕ)
    → price ≡ pos p
    → ((spent +ℤ price) +ℤ pos (k * p)) ≤ℤ budget
    → (spent +ℤ pos ((k + 1) * p)) ≤ℤ budget
one_more price spent budget p k same h = grind (
  arith,
  +ℤ_parts spent price,
  +ℤ_parts (spent +ℤ price) (pos (k * p)),
  +ℤ_parts spent (pos ((k + 1) * p)),
)

none_more :
    (spent budget : ℤ) (p k : ℕ) → k ≡ 0 → spent ≤ℤ budget → (spent +ℤ pos (k * p)) ≤ℤ budget
none_more spent budget p k same h = rw same (grind (arith, +ℤ_parts spent (pos (0 * p))))

served_more :
    (g : Gateway) (id : String) (ws : List World) (sess : PaymentSession) (p : ℕ)
    (x : Response × GatewayState)
    → g.price ≡ pos p
    → IsWithinBudget sess
    → Continues g id sess x
    → ((sess' : PaymentSession)
        → Holds id (some sess') x.1
        → IsWithinBudget sess'
        → (sess'.spent +ℤ pos (served g id ws x.1 * p)) ≤ℤ sess'.budget)
    → (sess.spent
        +ℤ pos ((if is_in_session x.0 then served g id ws x.1 + 1 else served g id ws x.1) * p))
      ≤ℤ sess.budget
served_more g id ws sess p x price within (inl (serves, enough, held)) rest = rw serves (
    one_more g.price sess.spent sess.budget p (served g id ws x.1) price
      (rest (draw g sess) held (draw-IsWithinBudget g sess enough)))
served_more g id ws sess p x price within (inr (refuses, inl held)) rest =
    rw refuses (rest sess held within)
served_more g id ws sess p x price within (inr (refuses, inr gone)) rest =
    rw refuses (
      none_more sess.spent sess.budget p (served g id ws x.1) (served-none g id ws x.1 gone) within)

-- However many continuation requests follow, in whatever worlds, the requests that an open session
-- serves at a price p cost no more than what its budget has left.
pub served-IsWithinBudget :
    (g : Gateway) (id : String) (ws : List World) (sess : PaymentSession) (p : ℕ) (s : GatewayState)
    → g.price ≡ pos p
    → lookup id s.sessions ≡ some sess
    → sess.spent ≤ℤ sess.budget
    → (sess.spent +ℤ pos (served g id ws s * p)) ≤ℤ sess.budget
unfolding served
served-IsWithinBudget g id [] sess p s price found within =
    none_more sess.spent sess.budget p 0 refl within
served-IsWithinBudget g id (w ∷ ws) sess p s price found within =
    served_more g id ws sess p (handle_session g w false id s) price within
      (handle_session-Continues g w id sess s found)
      (λ sess' found' within'. served-IsWithinBudget g id ws sess' p _ price found' within')
