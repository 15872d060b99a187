-- ===== src/Accounts/Budget.antt =====
-- The cumulative budget of one account: what is committed in the window and what is reserved.
use stablecoin_x402_gateway.Base.{
  ℕ, ◌-◌, ◌^◌, ◌≤◌, ◌≡◌, Bool, true, false, some, none, [], ◌∷◌, ◌++◌, arith, All, nat_eq,
  Option-cases, inl, inr,
}
use stablecoin_x402_gateway.Base.Int.{ℤ, pos, ◌+ℤ◌, ◌-ℤ◌, ◌≤ℤ◌, int_laws}
use stablecoin_x402_gateway.Base.Dict.{lookup, erase, insert, IsMap, erase-IsMap, insert-IsMap}
use stablecoin_x402_gateway.Mandate.{Mandate}
use stablecoin_x402_gateway.Accounts.Window.{
  Spend, window_dur, cutoff, is_recent, window_dur_le, cutoff_exact,
}
use stablecoin_x402_gateway.Accounts.Defs.{
  Account, new_account, sum_since, sum_reserved, committed_amount, reserved_amount, prune,
  max_window, over_budget, reserve_account, commit_account, release_account,
}
use stablecoin_x402_gateway.Accounts.Sums.{
  IsNonneg, AllReserved, insert-AllReserved, sum_since-append, sum_since_anti, sum_since-keep_since,
  keep_since-All, append-All, sum_reserved-erase, sum_reserved-erase_le, erase-AllReserved,
  lookup-IsNonneg,
}

-- What counts against the budget at a moment.
unfoldable pub usage : Mandate → ℕ → Account → ℤ
usage m now acc =
    committed_amount acc now (window_dur m.budget_window_seconds) +ℤ reserved_amount acc

pub record IsSound (acc : Account) : Type 0 where
  pub spends : All IsNonneg acc.spends
  pub reserved : AllReserved acc.reserved
  pub is_map : IsMap acc.reserved

pub new_account-IsSound : IsSound new_account
new_account-IsSound = record { spends = tt; reserved = tt; is_map = tt }

-- The budget window of the mandate does not wrap below zero.
abbrev pub HasWindow : Mandate → Type 0
HasWindow m = pos 0 ≤ℤ window_dur m.budget_window_seconds

pub commit_account_reserved :
    (m : Mandate) (nonce now : ℕ) (acc : Account) (r : Spend)
    → lookup nonce acc.reserved ≡ some r
    → commit_account m nonce now acc
      ≡ prune now (max_window m) (record {
        spends = acc.spends ++ record { at = now; amount = r.amount } ∷ [];
        reserved = erase nonce acc.reserved;
      })
unfolding commit_account
commit_account_reserved m nonce now acc r e = rw (e, commit_account)

commit_account_absent :
    (m : Mandate) (nonce now : ℕ) (acc : Account)
    → lookup nonce acc.reserved ≡ none
    → commit_account m nonce now acc ≡ acc
unfolding commit_account
commit_account_absent m nonce now acc e = rw (e, commit_account)

module _ (m : Mandate) (window : HasWindow m) where
  cutoff_budget :
      (now : ℕ)
      → cutoff now (window_dur m.budget_window_seconds)
        ≡ pos now -ℤ window_dur m.budget_window_seconds
  cutoff_budget now = cutoff_exact now _ window (window_dur_le m.budget_window_seconds)

  max_window_le : window_dur m.budget_window_seconds ≤ℤ max_window m
  unfolding max_window
  max_window_le = ground arith

  max_window_bound : max_window m ≤ℤ pos (2 ^ 63 - 1)
  unfolding max_window
  max_window_bound =
      ground (arith, window_dur_le m.budget_window_seconds, window_dur_le m.rate_window_seconds)

  pub cutoff_max :
      (now : ℕ) → cutoff now (max_window m) ≤ℤ cutoff now (window_dur m.budget_window_seconds)
  cutoff_max now = grind (
    int_laws,
    max_window_le,
    max_window_bound,
    cutoff_exact now (max_window m),
    cutoff_budget now,
  )

  -- With time, spends leave the window.
  pub usage_later :
      (acc : Account) (now now' : ℕ)
      → IsSound acc
      → now ≤ now'
      → usage m now' acc ≤ℤ usage m now acc
  unfolding usage committed_amount
  usage_later acc now now' v le = grind (
    int_laws,
    cutoff_budget now,
    cutoff_budget now',
    sum_since_anti (cutoff now (window_dur m.budget_window_seconds))
        (cutoff now' (window_dur m.budget_window_seconds)) acc.spends,
    v.spends,
  )

  pub usage_release :
      (acc : Account) (nonce now : ℕ)
      → IsSound acc
      → usage m now (release_account nonce acc) ≤ℤ usage m now acc
  unfolding usage committed_amount reserved_amount release_account
  usage_release acc nonce now v =
      omega (int_laws, sum_reserved-erase_le nonce acc.reserved v.reserved)

  pub sum_since_now :
      (now : ℕ) (x : ℤ)
      → sum_since
          (cutoff now (window_dur m.budget_window_seconds))
          (record { at = now; amount = x } ∷ [])
        ≡ x
  unfolding sum_since is_recent
  sum_since_now now x = grind (int_laws, cutoff_budget now, window)

  -- A commit moves a reservation into the window: the usage is the same.
  pub usage_commit :
      (acc : Account) (nonce now : ℕ)
      → IsSound acc
      → usage m now (commit_account m nonce now acc) ≡ usage m now acc
  unfolding usage committed_amount reserved_amount prune
  usage_commit acc nonce now v = elim (Option-cases (lookup nonce acc.reserved)) [
    | inl absent ↦ rw (commit_account_absent m nonce now acc absent)
    | inr (r, e) ↦
        let s : Spend = record { at = now; amount = r.amount } in
        let from = cutoff now (window_dur m.budget_window_seconds) in
        rw (commit_account_reserved m nonce now acc r e) (
          rw
            (
              sum_since-keep_since (cutoff now (max_window m)) from (acc.spends ++ s ∷ [])
                  (cutoff_max now),
              sum_since-append from acc.spends (s ∷ []),
              sum_since_now now r.amount,
              ← sum_reserved-erase nonce r acc.reserved v.is_map e,
            )
            (omega int_laws))
  ]

  -- A reservation that is granted without a confirmation leaves the usage within the budget.
  pub usage_reserve :
      (acc : Account) (nonce now : ℕ) (amount b : ℤ)
      → IsSound acc
      → m.budget_amount ≡ some b
      → pos 1 ≤ℤ b
      → (reserve_account m nonce amount now false acc).0 ≡ none
      → usage m now (reserve_account m nonce amount now false acc).1 ≤ℤ b
  unfolding usage reserve_account over_budget reserved_amount sum_reserved insert committed_amount
  usage_reserve acc nonce now amount b v e h granted =
      grind (int_laws, sum_reserved-erase_le nonce acc.reserved v.reserved)

  -- A confirmed reservation, granted or not, adds at most its amount.
  pub usage_reserve_confirmed :
      (acc : Account) (nonce now : ℕ) (amount : ℤ)
      → IsSound acc
      → pos 0 ≤ℤ amount
      → usage m now (reserve_account m nonce amount now true acc).1 ≤ℤ usage m now acc +ℤ amount
  unfolding usage reserve_account reserved_amount sum_reserved insert committed_amount
  usage_reserve_confirmed acc nonce now amount v h =
      grind (int_laws, sum_reserved-erase_le nonce acc.reserved v.reserved)

pub commit_account-IsSound :
    (m : Mandate) (nonce now : ℕ) (acc : Account)
    → IsSound acc
    → IsSound (commit_account m nonce now acc)
unfolding commit_account prune
commit_account-IsSound m nonce now acc v = elim (Option-cases (lookup nonce acc.reserved)) [
  | inl absent ↦ rw (absent, commit_account) v
  | inr (r, e) ↦
      let s : Spend = record { at = now; amount = r.amount } in
      rw (e, commit_account)
        (record {
          spends = keep_since-All (cutoff now (max_window m)) (acc.spends ++ s ∷ []) (
              append-All acc.spends s v.spends (lookup-IsNonneg nonce r acc.reserved v.reserved e));
          reserved = erase-AllReserved nonce acc.reserved v.reserved;
          is_map = erase-IsMap nonce acc.reserved v.is_map;
        })
]

pub release_account-IsSound :
    (nonce : ℕ) (acc : Account) → IsSound acc → IsSound (release_account nonce acc)
unfolding release_account
release_account-IsSound nonce acc v = record {
  spends = v.spends;
  reserved = erase-AllReserved nonce acc.reserved v.reserved;
  is_map = erase-IsMap nonce acc.reserved v.is_map;
}

pub reserve_account-IsSound :
    (m : Mandate) (nonce : ℕ) (amount : ℤ) (now : ℕ) (skip : Bool) (acc : Account)
    → pos 0 ≤ℤ amount
    → IsSound acc
    → IsSound (reserve_account m nonce amount now skip acc).1
unfolding reserve_account
reserve_account-IsSound m nonce amount now skip acc h v =
    let r : Spend = record { at = now; amount = amount } in
    ground (
      arith,
      insert-IsMap nonce r acc.reserved v.is_map,
      insert-AllReserved nonce r acc.reserved h v.reserved,
    )
