-- ===== src/Ledger/Reconcile.antt =====
-- `Reconcile` of ledger/ledger.go: the ledger against the token contract.
use stablecoin_x402_gateway.Base.{
  ℕ, Option, none, some, List, [], ◌∷◌, ◌++◌, length, if◌then◌else◌, leb,
}
use stablecoin_x402_gateway.Base.Int.{ℤ, pos, ◌+ℤ◌, eqb_ℤ}
use stablecoin_x402_gateway.Base.Dict.{Dict}
use stablecoin_x402_gateway.Ledger.Totals.{Snapshot, supply}
use stablecoin_x402_gateway.Ledger.Incremental.{
  Ledger, LedgerError, ChainReader, total_supply_failed, balance_failed, sync,
}

-- What the token contract answers; `none` is an error.
pub record TokenReader : Type 0 where
  pub total_supply : Option ℤ
  pub on_chain_balance : ℕ → Option ℤ

-- The texts of `Mismatches`.
pub data Mismatch : Type 0 where
  ledger_supply_differs : ℤ → ℤ → Mismatch
  sum_of_balances_differs : ℤ → ℤ → Mismatch
  balance_differs : ℕ → ℤ → ℤ → Mismatch

pub record Report : Type 0 where
  pub on_chain_supply : ℤ
  pub ledger_supply : ℤ
  pub sum_of_balances : ℤ
  pub minted : ℤ
  pub burned : ℤ
  pub accounts : ℕ
  pub events : ℕ
  pub mismatches : List Mismatch

unfoldable pub sum_balances : Dict ℕ ℤ → ℤ
sum_balances [] = pos 0
sum_balances ((_, b) ∷ rest) = b +ℤ sum_balances rest

-- `sort.Slice` on the addresses.
unfoldable pub insert_account : ℕ → ℤ → Dict ℕ ℤ → Dict ℕ ℤ
insert_account a b [] = (a, b) ∷ []
insert_account a b ((c, d) ∷ rest) =
    let later = insert_account a b rest in
    if leb a c then (a, b) ∷ (c, d) ∷ rest else (c, d) ∷ later

unfoldable pub sort_accounts : Dict ℕ ℤ → Dict ℕ ℤ
unfolding insert_account
sort_accounts [] = []
sort_accounts ((a, b) ∷ rest) = insert_account a b (sort_accounts rest)

-- The loop over the sorted addresses.
unfoldable pub account_mismatches : TokenReader → Dict ℕ ℤ → Option (List Mismatch)
account_mismatches tok [] = some []
account_mismatches tok ((a, b) ∷ accounts) =
    let rest = account_mismatches tok accounts in
    elim (tok.on_chain_balance a) [
      | none ↦ none
      | some on_chain ↦ elim rest [
        | none ↦ none
        | some ms ↦ some (if eqb_ℤ on_chain b then ms else balance_differs a b on_chain ∷ ms)
      ]
    ]

unfoldable pub total_mismatches : ℤ → Snapshot → List Mismatch
total_mismatches on_chain s =
    let by_supply =
      if eqb_ℤ (supply s) on_chain then [] else ledger_supply_differs (supply s) on_chain ∷ [] in
    let by_sum =
      if eqb_ℤ (sum_balances s.balances) on_chain
      then []
      else sum_of_balances_differs (sum_balances s.balances) on_chain ∷ [] in
    by_supply ++ by_sum

unfoldable pub report_of : Snapshot → ℤ → List Mismatch → Report
report_of s on_chain per_account = record {
  on_chain_supply = on_chain;
  ledger_supply = supply s;
  sum_of_balances = sum_balances s.balances;
  minted = s.minted;
  burned = s.burned;
  accounts = length s.balances;
  events = s.events;
  mismatches = total_mismatches on_chain s ++ per_account;
}

-- The report or the error, and the ledger as `Sync` leaves it.
pub data Reconciled : Type 0 where
  reported : Report → Reconciled
  not_reported : LedgerError → Reconciled

unfoldable pub compare_totals : TokenReader → Ledger → Reconciled
unfolding report_of total_mismatches
compare_totals tok synced = elim tok.total_supply [
  | none ↦ not_reported total_supply_failed
  | some on_chain ↦ elim (account_mismatches tok (sort_accounts synced.finalized.balances)) [
    | none ↦ not_reported balance_failed
    | some ms ↦ reported (report_of synced.finalized on_chain ms)
  ]
]

unfoldable pub after_sync : TokenReader → Option LedgerError × Ledger → Reconciled × Ledger
after_sync tok (some err, synced) = (not_reported err, synced)
after_sync tok (none, synced) = (compare_totals tok synced, synced)

unfoldable pub reconcile : ChainReader → TokenReader → Ledger → Reconciled × Ledger
unfolding after_sync
reconcile chain tok l = after_sync tok (sync chain l)
