-- ===== src/Tests/Accounts.antt =====
-- The accounts on concrete payments.
use stablecoin_x402_gateway.Base.{true, ℕ, ◌+◌, ◌≡◌, refl, false, some, [], ◌∷◌, arith}
use stablecoin_x402_gateway.Base.Int.{pos, ◌+ℤ◌, ◌≤ℤ◌}
use stablecoin_x402_gateway.Base.Dict.{lookup}
use stablecoin_x402_gateway.Codes.{mandate_budget_exceeded}
use stablecoin_x402_gateway.Mandate.{Mandate}
use stablecoin_x402_gateway.Accounts.{
  Account, Accounts, account_of, window_dur, cutoff, max_window, reserve, commit, committed_amount,
  committed_count, prune,
}
use stablecoin_x402_gateway.Accounts.Budget.{usage}
use stablecoin_x402_gateway.Accounts.Trace.{
  Moment, here, next, reserves, reserves_confirmed, commits, Reach-usage_le,
}
use stablecoin_x402_gateway.Accounts.Collision.{commit_forgets}
use stablecoin_x402_gateway.Accounts.Laws.{prune_hides_nothing, committed_amount_overflow}
use stablecoin_x402_gateway.Tests.Sample.{limited, noon, accounts_code}

abbrev start : Moment
start = record { now = noon; accounts = []; waived = pos 0 }

abbrev reserved_40 : Moment
reserved_40 = record start { accounts = (reserve limited 5 (pos 40) noon false []).1 }

abbrev committed_40 : Moment
committed_40 = record reserved_40 { accounts = commit limited 5 noon reserved_40.accounts }

-- A confirmed payment of 1000 follows.
abbrev confirmed_1000 : Moment
confirmed_1000 = record {
  now = noon;
  accounts = (reserve limited 6 (pos 1000) noon true committed_40.accounts).1;
  waived = pos 0 +ℤ pos 1000;
}

Reach-usage_le_example :
    usage limited noon (account_of 9 confirmed_1000.accounts) ≤ℤ (pos 1000 +ℤ (pos 0 +ℤ pos 1000))
unfolding window_dur
Reach-usage_le_example =
    Reach-usage_le limited (pos 1000) noon (omega arith) refl (omega arith) {t = confirmed_1000} (
      next (next (next here (reserves start 5 (pos 40) (omega arith))) (commits reserved_40 5))
        (reserves_confirmed committed_40 6 (pos 1000) (omega arith)))

-- The run of the example: 40 are committed, and 1000 more are reserved above the budget.
usage-confirmed_1000 : usage limited noon (account_of 9 confirmed_1000.accounts) ≡ pos 1040
unfolding usage accounts_code
usage-confirmed_1000 = refl

-- 40 and 961 are more than 1000.
reserve-over_budget :
    (reserve limited 6 (pos 961) noon false committed_40.accounts).0 ≡ some mandate_budget_exceeded
unfolding accounts_code
reserve-over_budget = refl

abbrev old_account : Account
old_account = record {
  spends = record { at = noon; amount = pos 900 } ∷ [];
  reserved = (5, record { at = noon; amount = pos 1 }) ∷ [];
}

abbrev later : ℕ
later = noon + 2_000_000_000

prune_hides_nothing_example :
    (committed_amount (prune noon (pos 3600) old_account) later (pos 60)
      ≡ committed_amount old_account later (pos 60))
    × (committed_count (prune noon (pos 3600) old_account) later (pos 60)
        ≡ committed_count old_account later (pos 60))
prune_hides_nothing_example =
    prune_hides_nothing noon later (pos 60) (pos 3600) old_account (omega arith) (omega arith)
      (omega arith) (omega arith)

-- The agent's own mandate, with the same id and windows of one second.
abbrev short : Mandate
short = record limited {
  delegator = 2;
  budget_window_seconds = some (pos 1);
  rate_window_seconds = some (pos 1);
}

abbrev shared : Accounts
shared = (9, old_account) ∷ []

commit_forgets_example :
    let window = window_dur limited.budget_window_seconds in
    (committed_amount (account_of 9 (commit limited 5 later shared)) later window
      ≡ pos 900 +ℤ pos 1)
    × (committed_amount (account_of 9 (commit short 5 later shared)) later window ≡ pos 1)
unfolding cutoff max_window window_dur account_of lookup ◌+ℤ◌
commit_forgets_example =
    commit_forgets limited short 5 later shared (record { at = noon; amount = pos 1 }) (omega arith)
      refl (omega arith) (omega arith) (omega arith) refl

committed_amount_overflow_example :
    committed_amount old_account later (window_dur (some (pos 10_000_000_000))) ≡ pos 0
committed_amount_overflow_example =
    committed_amount_overflow 10_000_000_000 later old_account (omega arith) (omega arith)
      (omega arith)
