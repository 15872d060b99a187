-- ===== src/Accounts/Laws.antt =====
-- What single operations on an account do: pruning, release, the rate cap, and three ways in which
-- the limits of a mandate are lost.
use stablecoin_x402_gateway.Base.{
  ℕ, ◌+◌, ◌-◌, ◌^◌, ◌≤◌, ◌<◌, ◌≡◌, refl, Bool, some, none, List, [], ◌∷◌, ◌++◌, arith, All, nat_eq,
  length,
}
use stablecoin_x402_gateway.Base.Int.{ℤ, pos, ◌+ℤ◌, ◌≤ℤ◌, neg, wrap64_small, int_laws}
use stablecoin_x402_gateway.Base.Dict.{Dict, lookup, erase, insert, erase-insert, erase_absent}
use stablecoin_x402_gateway.Mandate.{Mandate}
use stablecoin_x402_gateway.Mandate.Negation.{negate_limits}
use stablecoin_x402_gateway.Accounts.Window.{Spend, window_dur, cutoff, is_recent, cutoff_exact}
use stablecoin_x402_gateway.Accounts.Defs.{
  Account, sum_since, keep_since, committed_amount, committed_count, prune, max_window, over_budget,
  over_rate, reserve_account, commit_account, release_account,
}
use stablecoin_x402_gateway.Accounts.Sums.{sum_since-keep_since, count_since-keep_since}

cutoff_mono :
    (now later : ℕ) (w wide : ℤ)
    → now ≤ later
    → pos 0 ≤ℤ w
    → w ≤ℤ wide
    → wide ≤ℤ pos (2 ^ 63 - 1)
    → cutoff now wide ≤ℤ cutoff later w
cutoff_mono now later w wide h p q r = grind (int_laws, cutoff_exact now wide, cutoff_exact later w)

-- Pruning by the widest window changes no later sum or count over a window within it.
pub prune_hides_nothing :
    (now later : ℕ) (w wide : ℤ) (acc : Account)
    → now ≤ later
    → pos 0 ≤ℤ w
    → w ≤ℤ wide
    → wide ≤ℤ pos (2 ^ 63 - 1)
    → (committed_amount (prune now wide acc) later w ≡ committed_amount acc later w)
      × (committed_count (prune now wide acc) later w ≡ committed_count acc later w)
unfolding committed_amount committed_count prune
prune_hides_nothing now later w wide acc h p q r =
    let le = cutoff_mono now later w wide h p q r in
    (
      sum_since-keep_since (cutoff now wide) (cutoff later w) acc.spends le,
      count_since-keep_since (cutoff now wide) (cutoff later w) acc.spends le,
    )

-- A released reservation leaves the account as it was before, granted or not, for a fresh nonce.
pub release_account-reserve_account :
    (m : Mandate) (nonce : ℕ) (amount : ℤ) (now : ℕ) (skip : Bool) (acc : Account)
    → lookup nonce acc.reserved ≡ none
    → release_account nonce (reserve_account m nonce amount now skip acc).1 ≡ acc
unfolding release_account reserve_account
release_account-reserve_account m nonce amount now skip acc fresh =
    let r : Spend = record { at = now; amount = amount } in
    ground (arith, erase-insert nonce r acc.reserved, erase_absent nonce acc.reserved fresh)

length-erase_le : (k : ℕ) (d : Dict ℕ Spend) → length (erase k d) ≤ length d
unfolding erase
length-erase_le k [] = omega arith
length-erase_le k ((j, r) ∷ d) = ground (arith, length-erase_le k d)

-- A granted reservation, confirmed or not, leaves the payments in the window and in flight within
-- the rate cap, where the cap fits `int64`.
pub reserve_account_rate :
    (m : Mandate) (nonce : ℕ) (amount : ℤ) (now : ℕ) (skip : Bool) (acc : Account) (cap : ℕ)
    → m.max_payments_per_window ≡ some (pos cap)
    → 0 < cap
    → cap < 2 ^ 63
    → (reserve_account m nonce amount now skip acc).0 ≡ none
    → let after = (reserve_account m nonce amount now skip acc).1 in
      committed_count after now (window_dur m.rate_window_seconds) + length after.reserved ≤ cap
unfolding reserve_account over_rate committed_count insert
reserve_account_rate m nonce amount now skip acc cap e h k granted =
    ground (arith, wrap64_small cap k, length-erase_le nonce acc.reserved)

-- With its limits negated a mandate whose limits were positive grants every reservation.
pub reserve_account-negate_limits :
    (m : Mandate) (b cap : ℤ) (nonce : ℕ) (amount : ℤ) (now : ℕ) (skip : Bool) (acc : Account)
    → m.budget_amount ≡ some b
    → pos 1 ≤ℤ b
    → m.max_payments_per_window ≡ some cap
    → pos 1 ≤ℤ cap
    → (reserve_account (negate_limits m) nonce amount now skip acc).0 ≡ none
unfolding reserve_account over_budget over_rate neg
reserve_account-negate_limits m b cap nonce amount now skip acc e h e' h' = ground arith

keep_since_none :
    (from : ℤ) (ss : List Spend) → All (λ s. pos (s.at + 1) ≤ℤ from) ss → keep_since from ss ≡ []
unfolding keep_since is_recent
keep_since_none from [] h = refl
keep_since_none from (s ∷ ss) h = ground (arith, keep_since_none from ss h.1)

keep_since-append :
    (from : ℤ) (xs ys : List Spend)
    → keep_since from (xs ++ ys) ≡ keep_since from xs ++ keep_since from ys
unfolding keep_since
keep_since-append from [] ys = refl
keep_since-append from (s ∷ xs) ys = ground (arith, keep_since-append from xs ys)

-- A commit under a mandate with the same id prunes by that mandate's own windows: where all spends
-- lie before them, they are dropped, however wide the windows of the mandate they were made under.
pub commit_account_forgets :
    (other : Mandate) (nonce now : ℕ) (acc : Account) (r : Spend)
    → All (λ s. pos (s.at + 1) ≤ℤ cutoff now (max_window other)) acc.spends
    → cutoff now (max_window other) ≤ℤ pos now
    → lookup nonce acc.reserved ≡ some r
    → (commit_account other nonce now acc).spends ≡ record { at = now; amount = r.amount } ∷ []
unfolding commit_account prune
commit_account_forgets other nonce now acc r old h e =
    let s : Spend = record { at = now; amount = r.amount } in
    let from = cutoff now (max_window other) in
    rw (e, commit_account)
      (rw (keep_since-append from acc.spends (s ∷ []), keep_since_none from acc.spends old)
        (unfold keep_since is_recent in ground arith))

cutoff_overflow :
    (s now : ℕ)
    → 9223372037 ≤ s
    → s ≤ 18446744072
    → pos (now + 1) ≤ℤ cutoff now (window_dur (some (pos s)))
unfolding cutoff window_dur ◌+ℤ◌
cutoff_overflow s now h k = ground arith

sum_since_future :
    (from : ℤ) (now : ℕ) (ss : List Spend)
    → pos (now + 1) ≤ℤ from
    → All (λ s. s.at ≤ now) ss
    → sum_since from ss ≡ pos 0
unfolding sum_since is_recent
sum_since_future from now [] le h = refl
sum_since_future from now (s ∷ ss) le h = ground (arith, sum_since_future from now ss le h.1)

-- A window of 9223372037 to 18446744072 seconds wraps below zero, and no committed spend counts.
pub committed_amount_overflow :
    (s now : ℕ) (acc : Account)
    → 9223372037 ≤ s
    → s ≤ 18446744072
    → All (λ x. x.at ≤ now) acc.spends
    → committed_amount acc now (window_dur (some (pos s))) ≡ pos 0
unfolding committed_amount
committed_amount_overflow s now acc h k past =
    sum_since_future (cutoff now (window_dur (some (pos s)))) now acc.spends
      (cutoff_overflow s now h k) past
