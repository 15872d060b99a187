-- ===== src/Accounts/Collision.antt =====
-- Two mandates with the same id share an account, x402/policy_mandate.go `commit`, `prune`: a commit
-- under one prunes the spends of the other by its own windows.
use stablecoin_x402_gateway.Base.{
  ℕ, ◌+◌, ◌≡◌, refl, ap, subst, ◌∙◌, some, List, [], ◌∷◌, ◌++◌, arith, All, nat_eq,
}
use stablecoin_x402_gateway.Base.Int.{ℤ, pos, ◌+ℤ◌, ◌≤ℤ◌}
use stablecoin_x402_gateway.Base.Dict.{lookup}
use stablecoin_x402_gateway.Mandate.{Mandate}
use stablecoin_x402_gateway.Accounts.Window.{Spend, window_dur, cutoff, is_recent}
use stablecoin_x402_gateway.Accounts.Defs.{
  Account, Accounts, account_of, sum_since, committed_amount, max_window, commit, commit_account,
  prune,
}
use stablecoin_x402_gateway.Accounts.Sums.{sum_since-append, sum_since-keep_since}
use stablecoin_x402_gateway.Accounts.Budget.{
  HasWindow, sum_since_now, cutoff_max, commit_account_reserved,
}
use stablecoin_x402_gateway.Accounts.Laws.{commit_account_forgets}
use stablecoin_x402_gateway.Accounts.Each.{account_of-commit_self}

abbrev pub total_spent : List Spend → ℤ
total_spent [] = pos 0
total_spent (s ∷ ss) = s.amount +ℤ total_spent ss

sum_since-All :
    (from : ℤ) (ss : List Spend)
    → All (λ s. from ≤ℤ pos s.at) ss
    → sum_since from ss ≡ total_spent ss
unfolding sum_since is_recent
sum_since-All from [] h = refl
sum_since-All from (s ∷ ss) h = ground (arith, sum_since-All from ss h.1)

-- A commit under the mandate itself adds the committed amount to what counts in its budget window.
committed_amount-commit_account :
    (m : Mandate) (nonce now : ℕ) (acc : Account) (r : Spend)
    → HasWindow m
    → lookup nonce acc.reserved ≡ some r
    → committed_amount (commit_account m nonce now acc) now (window_dur m.budget_window_seconds)
      ≡ committed_amount acc now (window_dur m.budget_window_seconds) +ℤ r.amount
unfolding committed_amount prune
committed_amount-commit_account m nonce now acc r window e =
    let s : Spend = record { at = now; amount = r.amount } in
    let from = cutoff now (window_dur m.budget_window_seconds) in
    rw (commit_account_reserved m nonce now acc r e) (
      rw
        (
          sum_since-keep_since (cutoff now (max_window m)) from (acc.spends ++ s ∷ [])
              (cutoff_max m window now),
          sum_since-append from acc.spends (s ∷ []),
          sum_since_now m window now r.amount,
        )
        refl)

-- Under another mandate with the same id, whoever granted it, the earlier spends are gone.
committed_amount-commit_other :
    (m other : Mandate) (nonce now : ℕ) (acc : Account) (r : Spend)
    → HasWindow m
    → All (λ s. pos (s.at + 1) ≤ℤ cutoff now (max_window other)) acc.spends
    → cutoff now (max_window other) ≤ℤ pos now
    → lookup nonce acc.reserved ≡ some r
    → committed_amount (commit_account other nonce now acc) now (window_dur m.budget_window_seconds)
      ≡ r.amount
unfolding committed_amount
committed_amount-commit_other m other nonce now acc r window old recent e =
    ap (sum_since (cutoff now (window_dur m.budget_window_seconds)))
      (commit_account_forgets other nonce now acc r old recent e)
    ∙ sum_since_now m window now r.amount

-- A mandate whose budget window does not wrap has spends in that window, and a second mandate, of
-- any delegator, has the same id and windows that end after those spends. A commit under the
-- mandate itself counts them all and the new payment; the same commit under the second mandate
-- leaves only the new payment counted against the budget of the first.
pub commit_forgets :
    (m other : Mandate) (nonce now : ℕ) (a : Accounts) (r : Spend)
    → HasWindow m
    → other.mandate_id ≡ m.mandate_id
    → All
        (λ s. cutoff now (window_dur m.budget_window_seconds) ≤ℤ pos s.at)
        (account_of m.mandate_id a).spends
    → All (λ s. pos (s.at + 1) ≤ℤ cutoff now (max_window other)) (account_of m.mandate_id a).spends
    → cutoff now (max_window other) ≤ℤ pos now
    → lookup nonce (account_of m.mandate_id a).reserved ≡ some r
    → let window = window_dur m.budget_window_seconds in
      (committed_amount (account_of m.mandate_id (commit m nonce now a)) now window
        ≡ total_spent (account_of m.mandate_id a).spends +ℤ r.amount)
      × (committed_amount (account_of m.mandate_id (commit other nonce now a)) now window
          ≡ r.amount)
unfolding committed_amount
commit_forgets m other nonce now a r window same within old recent e =
    let acc = account_of m.mandate_id a in
    let count = λ (x : Account). committed_amount x now (window_dur m.budget_window_seconds) in
    let shared : account_of m.mandate_id (commit other nonce now a)
        ≡ commit_account other nonce now acc =
      subst
        (λ id.
          account_of id (commit other nonce now a)
          ≡ commit_account other nonce now (account_of id a))
        same (account_of-commit_self other nonce now a) in
    (
      ap count (account_of-commit_self m nonce now a)
          ∙ committed_amount-commit_account m nonce now acc r window e
          ∙ ap (λ x. x +ℤ r.amount)
              (sum_since-All (cutoff now (window_dur m.budget_window_seconds)) acc.spends within),
      ap count shared ∙ committed_amount-commit_other m other nonce now acc r window old recent e,
    )
