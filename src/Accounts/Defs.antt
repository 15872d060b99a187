-- ===== src/Accounts/Defs.antt =====
-- The accounts of `mandateAccounts` and their operations.
use stablecoin_x402_gateway.Base.{
  ℕ, suc, ◌+◌, Bool, false, not, ◌&&◌, Option, none, some, List, [], ◌∷◌, ◌++◌, length,
  if◌then◌else◌, nat_eq,
}
use stablecoin_x402_gateway.Base.Int.{ℤ, pos, ◌+ℤ◌, ltb_ℤ, is_positive, wrap64}
use stablecoin_x402_gateway.Base.Dict.{Dict, lookup, insert, erase}
use stablecoin_x402_gateway.Codes.{ErrorCode, mandate_budget_exceeded, mandate_rate_exceeded}
use stablecoin_x402_gateway.Mandate.{Mandate}
use stablecoin_x402_gateway.Accounts.Window.{Spend, window_dur, cutoff, is_recent}

-- Reservations are keyed by the payment nonce, accounts by the mandate id.
pub record Account : Type 0 where
  pub spends : List Spend
  pub reserved : Dict ℕ Spend

abbrev pub Accounts : Type 0
Accounts = Dict ℕ Account

abbrev pub new_account : Account
new_account = record { spends = []; reserved = [] }

-- The loops of `committedAmount`, `committedCount` and `prune`, from a cutoff on.
unfoldable pub sum_since : ℤ → List Spend → ℤ
sum_since from [] = pos 0
sum_since from (s ∷ ss) =
    let rest = sum_since from ss in if is_recent from s then s.amount +ℤ rest else rest

unfoldable pub count_since : ℤ → List Spend → ℕ
count_since from [] = 0
count_since from (s ∷ ss) =
    let rest = count_since from ss in if is_recent from s then suc rest else rest

unfoldable pub keep_since : ℤ → List Spend → List Spend
keep_since from [] = []
keep_since from (s ∷ ss) =
    let rest = keep_since from ss in if is_recent from s then s ∷ rest else rest

unfoldable pub committed_amount : Account → ℕ → ℤ → ℤ
committed_amount acc now window = sum_since (cutoff now window) acc.spends

unfoldable pub committed_count : Account → ℕ → ℤ → ℕ
committed_count acc now window = count_since (cutoff now window) acc.spends

unfoldable pub sum_reserved : Dict ℕ Spend → ℤ
sum_reserved [] = pos 0
sum_reserved ((_, r) ∷ rs) = r.amount +ℤ sum_reserved rs

unfoldable pub reserved_amount : Account → ℤ
reserved_amount acc = sum_reserved acc.reserved

unfoldable pub max_window : Mandate → ℤ
max_window m =
    let b = window_dur m.budget_window_seconds in
    let r = window_dur m.rate_window_seconds in if ltb_ℤ r b then b else r

unfoldable pub prune : ℕ → ℤ → Account → Account
prune now window acc = record acc { spends = keep_since (cutoff now window) acc.spends }

-- `acc := a.acct[id]`, made anew where it is nil.
unfoldable pub account_of : ℕ → Accounts → Account
account_of id a = elim (lookup id a) [ none ↦ new_account | some acc ↦ acc ]

unfoldable pub over_budget : Mandate → Account → ℤ → ℕ → Bool
over_budget m acc amount now = elim m.budget_amount [
  | none ↦ false
  | some budget ↦
      let used =
        committed_amount acc now (window_dur m.budget_window_seconds) +ℤ reserved_amount acc in
      is_positive budget && ltb_ℤ budget (used +ℤ amount)
]

unfoldable pub over_rate : Mandate → Account → ℕ → Bool
over_rate m acc now = elim m.max_payments_per_window [
  | none ↦ false
  | some cap ↦
      let count =
        committed_count acc now (window_dur m.rate_window_seconds) + length acc.reserved + 1 in
      is_positive cap && ltb_ℤ (wrap64 cap) (pos count)
]

-- `none` is the empty code: the reservation is made.
unfoldable pub reserve_account : Mandate → ℕ → ℤ → ℕ → Bool → Account → Option ErrorCode × Account
reserve_account m nonce amount now skip_budget acc =
    let r : Spend = record { at = now; amount = amount } in
    if not skip_budget && over_budget m acc amount now
    then (some mandate_budget_exceeded, acc)
    else if over_rate m acc now
    then (some mandate_rate_exceeded, acc)
    else (none, record acc { reserved = insert nonce r acc.reserved })

unfoldable pub reserve : Mandate → ℕ → ℤ → ℕ → Bool → Accounts → Option ErrorCode × Accounts
reserve m nonce amount now skip_budget a =
    let (code, acc) = reserve_account m nonce amount now skip_budget (account_of m.mandate_id a) in
    (code, insert m.mandate_id acc a)

unfoldable pub commit_account : Mandate → ℕ → ℕ → Account → Account
commit_account m nonce now acc = elim (lookup nonce acc.reserved) [
  | none ↦ acc
  | some r ↦
      let s : Spend = record { at = now; amount = r.amount } in
      prune now (max_window m)
        (record { spends = acc.spends ++ s ∷ []; reserved = erase nonce acc.reserved })
]

unfoldable pub commit : Mandate → ℕ → ℕ → Accounts → Accounts
commit m nonce now a = elim (lookup m.mandate_id a) [
  | none ↦ a
  | some acc ↦ insert m.mandate_id (commit_account m nonce now acc) a
]

unfoldable pub release_account : ℕ → Account → Account
release_account nonce acc = record acc { reserved = erase nonce acc.reserved }

unfoldable pub release : Mandate → ℕ → Accounts → Accounts
release m nonce a = elim (lookup m.mandate_id a) [
  | none ↦ a
  | some acc ↦ insert m.mandate_id (release_account nonce acc) a
]

unfoldable pub restore : ℕ → ℕ → ℤ → Accounts → Accounts
restore id at amount a =
    let acc = account_of id a in
    let s : Spend = record { at = at; amount = amount } in
    insert id (record acc { spends = acc.spends ++ s ∷ [] }) a
