-- ===== src/Tests/Sessions.antt =====
-- The sessions of x402/session.go at concrete requests.
use stablecoin_x402_gateway.Base.{
  ◌*◌, ◌≡◌, refl, true, false, none, some, [], ◌∷◌, ◌++◌, string_eq, nat_eq, arith,
}
use stablecoin_x402_gateway.Base.Int.{pos, ◌+ℤ◌, ◌≤ℤ◌, ◌-ℤ◌, wrap64}
use stablecoin_x402_gateway.Base.Dict.{lookup, insert, erase}
use stablecoin_x402_gateway.Codes.{settlement_error, session_unknown}
use stablecoin_x402_gateway.Journal.{append, after_entry, write_line, record_entry}
use stablecoin_x402_gateway.Policy.History.{unix}
use stablecoin_x402_gateway.Policy.Chain.{notify, rule_settled}
use stablecoin_x402_gateway.Base.Decimal.{integer_text, digits_text}
use stablecoin_x402_gateway.Base.Text.{set_string}
use stablecoin_x402_gateway.Gateway.Defs.{
  failure, append_where, journal_append, settle_call, refund_call,
}
use stablecoin_x402_gateway.Gateway.Settle.{
  settlement_entry, notify_settlers, journal_refund, refund_entry,
}
use stablecoin_x402_gateway.Session.{
  with_session, continue_session, is_expiring, after_exhausted, Request, session_closed, not_served,
  handle_session, middleware,
}
use stablecoin_x402_gateway.Session.Settle.{
  settle_session, session_answered, session_journaled, refund_unused, after_unused, session_record,
}
use stablecoin_x402_gateway.Session.Budget.{HasBudgets, middleware-HasBudgets}
use stablecoin_x402_gateway.Session.Recorded.{IsMirrored, middleware-IsMirrored}
use stablecoin_x402_gateway.Session.Closing.{served, served-IsWithinBudget}
use stablecoin_x402_gateway.Session.Refund.{owed, handle_session-closes, handle_session-close-Fails}
use stablecoin_x402_gateway.Tests.Honest.{honest}
use stablecoin_x402_gateway.Tests.Payments.{reads, sent}
use stablecoin_x402_gateway.Tests.Shop.{shop, settles, good_day, bad_day, half_spent, at_work}

-- The definitions that the runs compute with.
unfoldable session_code : Unit {0}
unfolding handle_session with_session continue_session is_expiring settle_session session_answered
    session_journaled refund_unused after_unused after_exhausted ◌-ℤ◌ ◌+ℤ◌ wrap64 unix lookup insert
    erase journal_append append_where settlement_entry notify_settlers notify rule_settled
    journal_refund refund_entry append after_entry write_line record_entry integer_text digits_text
    set_string
session_code = tt

abbrev continuation : Request
continuation = record {
  resource = "http://shop/report";
  payment = none;
  session_id = "s1";
  close = false;
}

middleware-HasBudgets_example : HasBudgets (middleware shop good_day continuation at_work).1
middleware-HasBudgets_example =
    middleware-HasBudgets shop good_day reads continuation at_work (λ p reqs. refl)
      (omega arith, tt)

middleware-IsMirrored_example :
    IsMirrored honest
      (middleware shop good_day (record continuation { payment = some (some sent) }) at_work).1
middleware-IsMirrored_example =
    middleware-IsMirrored shop good_day (record continuation { payment = some (some sent) }) at_work
      tt

has_half_spent : lookup "s1" at_work.sessions ≡ some half_spent
unfolding lookup
has_half_spent = refl

served-IsWithinBudget_example :
    (pos 50 +ℤ pos (served shop "s1" (good_day ∷ good_day ∷ []) at_work * 50)) ≤ℤ pos 120
served-IsWithinBudget_example =
    served-IsWithinBudget shop "s1" (good_day ∷ good_day ∷ []) half_spent 50 at_work refl
      has_half_spent (omega arith)

-- The first continuation is served, the second is not.
served_once : served shop "s1" (good_day ∷ good_day ∷ []) at_work ≡ 1
unfolding served session_code
served_once = refl

handle_session-closes_example :
    let (answer, after) = handle_session shop good_day true "s1" at_work in
    (answer ≡ session_closed (session_record shop good_day half_spent settles))
    × (lookup "s1" after.sessions ≡ none)
    × (after.calls ≡ (settle_call sent ∷ []) ++ owed half_spent)
unfolding session_code
handle_session-closes_example =
    handle_session-closes shop good_day "s1" half_spent settles at_work has_half_spent refl refl
      refl refl

owed-half_spent : owed half_spent ≡ refund_call 2 (some (pos 70)) ∷ []
unfolding ◌-ℤ◌
owed-half_spent = refl

handle_session-close-Fails_example :
    let (answer, after) = handle_session shop bad_day true "s1" at_work in
    (answer ≡ not_served (failure settlement_error none))
    × (after.settlements ≡ [])
    × (handle_session shop good_day true "s1" after
        ≡ (not_served (failure session_unknown (some "unknown or already-settled session")), after))
handle_session-close-Fails_example =
    handle_session-close-Fails shop bad_day good_day "s1" true half_spent at_work has_half_spent
      refl tt
