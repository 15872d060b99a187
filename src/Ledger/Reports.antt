-- ===== src/Ledger/Reports.antt =====
-- What a reconciliation report says of the ledger and of the token contract.
use stablecoin_x402_gateway.Base.{
  ℕ, ◌≡◌, refl, sym, ap, ◌∙◌, true, none, some, List, [], ◌∷◌, ◌++◌, inl, inr, Bool-cases,
  Option-cases, All, nat_beq_iff, nat_eq, leb, arith,
}
use mathlib.Core.Path.{subst}
use stablecoin_x402_gateway.Base.Int.{ℤ, eqb_ℤ, eq_of_parts}
use stablecoin_x402_gateway.Base.Dict.{Dict, lookup}
use stablecoin_x402_gateway.Ledger.Totals.{
  Log, Snapshot, supply, apply_events, no_transfers, parse_transfer_logs,
}
use stablecoin_x402_gateway.Ledger.Incremental.{ChainReader, Ledger, sync}
use stablecoin_x402_gateway.Ledger.Reconcile.{
  Report, Mismatch, TokenReader, reported, reconcile, after_sync, compare_totals, report_of,
  total_mismatches, account_mismatches, sort_accounts, insert_account,
}
use stablecoin_x402_gateway.Ledger.Conservation.{
  IsConserved, apply_events-IsConserved, no_transfers-IsConserved,
}

-- What a successful report was made from.
record IsReportOf (tok : TokenReader) (s : Snapshot) (r : Report) : Type 0 where
  on_chain : ℤ
  per_account : List Mismatch
  reads_supply : tok.total_supply ≡ some on_chain
  reads_accounts : account_mismatches tok (sort_accounts s.balances) ≡ some per_account
  is_report : r ≡ report_of s on_chain per_account

reported_eq : {r q : Report} → reported r ≡ reported q → q ≡ r
reported_eq e = ground arith

compare_totals-reported :
    (tok : TokenReader) (l : Ledger) (on_chain : ℤ) (ms : List Mismatch)
    → tok.total_supply ≡ some on_chain
    → account_mismatches tok (sort_accounts l.finalized.balances) ≡ some ms
    → compare_totals tok l ≡ reported (report_of l.finalized on_chain ms)
unfolding compare_totals
compare_totals-reported tok l on_chain ms reads accounts = rw (compare_totals, reads, accounts) refl

compare_totals-IsReportOf :
    (tok : TokenReader) (l : Ledger) (r : Report)
    → compare_totals tok l ≡ reported r
    → IsReportOf tok l.finalized r
unfolding compare_totals
compare_totals-IsReportOf tok l r e = elim (Option-cases tok.total_supply) [
  | inl fails ↦ absurd (ground arith)
  | inr (on_chain, reads) ↦
      elim (Option-cases (account_mismatches tok (sort_accounts l.finalized.balances))) [
        | inl fails ↦ absurd (ground arith)
        | inr (ms, accounts) ↦ record {
          on_chain = on_chain;
          per_account = ms;
          reads_supply = reads;
          reads_accounts = accounts;
          is_report =
              reported_eq (sym (compare_totals-reported tok l on_chain ms reads accounts) ∙ e);
        }
      ]
]

sync-reads :
    (chain : ChainReader) (l : Ledger) (logs : List Log)
    → chain.filter_logs 0 none ≡ some logs
    → sync chain l
      ≡ (none, record l { finalized = apply_events (parse_transfer_logs logs) no_transfers })
unfolding sync
sync-reads chain l logs reads = rw (sync, reads) refl

reconcile-synced :
    (chain : ChainReader) (tok : TokenReader) (l : Ledger) (logs : List Log)
    → chain.filter_logs 0 none ≡ some logs
    → let k : Ledger = record l {
      finalized = apply_events (parse_transfer_logs logs) no_transfers;
    } in
      reconcile chain tok l ≡ (compare_totals tok k, k)
unfolding reconcile after_sync
reconcile-synced chain tok l logs reads = ap (after_sync tok) (sync-reads chain l logs reads)

reconcile-IsReportOf :
    (chain : ChainReader) (tok : TokenReader) (l : Ledger) (r : Report)
    → (reconcile chain tok l).0 ≡ reported r
    → IsReportOf tok (reconcile chain tok l).1.finalized r
      × IsConserved (reconcile chain tok l).1.finalized
unfolding reconcile sync
reconcile-IsReportOf chain tok l r e = elim (Option-cases (chain.filter_logs 0 none)) [
  | inl fails ↦ absurd (ground arith)
  | inr (logs, reads) ↦
      let evs = parse_transfer_logs logs in
      let k : Ledger = record l { finalized = apply_events evs no_transfers } in
      let q = reconcile-synced chain tok l logs reads in
      subst (λ x. IsReportOf tok x.1.finalized r × IsConserved x.1.finalized) (sym q)
        (
          compare_totals-IsReportOf tok k r (sym (ap (λ x. x.0) q) ∙ e),
          apply_events-IsConserved evs no_transfers no_transfers-IsConserved,
        )
]

AllBalances : TokenReader → Dict ℕ ℤ → Type 0
AllBalances tok d = All (λ (p : ℕ × ℤ). tok.on_chain_balance p.0 ≡ some p.1) d

no_mismatch :
    (tok : TokenReader) (a : ℕ) (b x : ℤ) (d : Dict ℕ ℤ)
    → tok.on_chain_balance a ≡ some x
    → account_mismatches tok ((a, b) ∷ d) ≡ some []
    → (eqb_ℤ x b ≡ true) × (account_mismatches tok d ≡ some [])
unfolding account_mismatches
no_mismatch tok a b x d reads e = ground arith

eqb_ℤ-eq : (x b : ℤ) → eqb_ℤ x b ≡ true → x ≡ b
eqb_ℤ-eq x b e = eq_of_parts x b (ground arith)

account_mismatches-AllBalances :
    (tok : TokenReader) (d : Dict ℕ ℤ) → account_mismatches tok d ≡ some [] → AllBalances tok d
unfolding account_mismatches AllBalances
account_mismatches-AllBalances tok [] e = tt
account_mismatches-AllBalances tok ((a, b) ∷ d) e = elim (Option-cases (tok.on_chain_balance a)) [
  | inl fails ↦ absurd (ground arith)
  | inr (x, reads) ↦
      let (same, rest) = no_mismatch tok a b x d reads e in
      (reads ∙ ap some (eqb_ℤ-eq x b same), account_mismatches-AllBalances tok d rest)
]

insert_account-AllBalances :
    (tok : TokenReader) (a : ℕ) (b : ℤ) (d : Dict ℕ ℤ)
    → AllBalances tok (insert_account a b d)
    → (tok.on_chain_balance a ≡ some b) × AllBalances tok d
unfolding insert_account AllBalances
insert_account-AllBalances tok a b [] h = h
insert_account-AllBalances tok a b ((c, x) ∷ d) h = elim (Bool-cases (leb a c)) [
  | inl le ↦ ground arith
  | inr gt ↦ ground (arith, insert_account-AllBalances tok a b d)
]

sort_accounts-AllBalances :
    (tok : TokenReader) (d : Dict ℕ ℤ) → AllBalances tok (sort_accounts d) → AllBalances tok d
unfolding sort_accounts AllBalances
sort_accounts-AllBalances tok [] h = tt
sort_accounts-AllBalances tok ((a, b) ∷ d) h =
    let (here, rest) = insert_account-AllBalances tok a b (sort_accounts d) h in
    (here, sort_accounts-AllBalances tok d rest)

lookup-AllBalances :
    (tok : TokenReader) (a : ℕ) (b : ℤ) (d : Dict ℕ ℤ)
    → AllBalances tok d
    → lookup a d ≡ some b
    → tok.on_chain_balance a ≡ some b
unfolding lookup AllBalances
lookup-AllBalances tok a b [] h e = ground arith
lookup-AllBalances tok a b ((c, x) ∷ d) h e =
    ground (arith, nat_beq_iff a c, lookup-AllBalances tok a b d h.1)

-- A report's ledger supply is its sum of balances, so its first two checks always agree.
pub reconcile-supply :
    (chain : ChainReader) (tok : TokenReader) (l : Ledger) (r : Report)
    → (reconcile chain tok l).0 ≡ reported r
    → r.ledger_supply ≡ r.sum_of_balances
unfolding report_of IsConserved
reconcile-supply chain tok l r e =
    let (made, conserved) = reconcile-IsReportOf chain tok l r e in
    ap (λ (q : Report). q.ledger_supply) made.is_report
    ∙ conserved.0
    ∙ sym (ap (λ (q : Report). q.sum_of_balances) made.is_report)

no_totals :
    (s : Snapshot) (on_chain : ℤ) (ms : List Mismatch)
    → total_mismatches on_chain s ++ ms ≡ []
    → (on_chain ≡ supply s) × (ms ≡ [])
unfolding total_mismatches
no_totals s on_chain ms e = ground (arith, eqb_ℤ-eq (supply s) on_chain)

-- A report without mismatches: the token's total supply is the ledger's, and each account of the
-- ledger has the balance that the token contract gives it.
pub reconcile_ok :
    (chain : ChainReader) (tok : TokenReader) (l : Ledger) (r : Report)
    → (reconcile chain tok l).0 ≡ reported r
    → r.mismatches ≡ []
    → (tok.total_supply ≡ some r.ledger_supply)
      × ((a : ℕ) (b : ℤ)
          → lookup a (reconcile chain tok l).1.finalized.balances ≡ some b
          → tok.on_chain_balance a ≡ some b)
unfolding report_of
reconcile_ok chain tok l r e ok =
    let (made, _) = reconcile-IsReportOf chain tok l r e in
    let s = (reconcile chain tok l).1.finalized in
    let none_found = sym (ap (λ (q : Report). q.mismatches) made.is_report) ∙ ok in
    let (same, per_account) = no_totals s made.on_chain made.per_account none_found in
    let found = account_mismatches-AllBalances tok _ (made.reads_accounts ∙ ap some per_account) in
    let all = sort_accounts-AllBalances tok s.balances found in
    (
      made.reads_supply
          ∙ ap some (same ∙ sym (ap (λ (q : Report). q.ledger_supply) made.is_report)),
      λ a b has. lookup-AllBalances tok a b s.balances all has,
    )
