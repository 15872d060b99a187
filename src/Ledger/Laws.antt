-- ===== src/Ledger/Laws.antt =====
-- What the incremental sync and the reconciliation promise in any environment.
use stablecoin_x402_gateway.Base.{
  ℕ, ◌≡◌, refl, sym, ◌∙◌, Option, none, some, List, [], ◌∷◌, inl, inr, Bool-cases, Option-cases,
  nat_beq, nat_eq, leb, arith,
}
use mathlib.Core.Path.{subst}
use stablecoin_x402_gateway.Ledger.Totals.{Snapshot}
use stablecoin_x402_gateway.Ledger.Incremental.{
  BlockRecord, ChainReader, Ledger, LedgerError, Rewound, overlay, snapshot, rewind_pending,
  rewind_reorg, check_checkpoint, read_blocks, append_range, merge_pending, merge_finalized,
  checkpoint, sync_from, sync_incremental, and_then, after_rewind, rewind_failed, at_canonical,
  window_dropped,
}
use stablecoin_x402_gateway.Ledger.Conservation.{IsConserved, apply_events-IsConserved}

overlay-IsConserved :
    (ps : List BlockRecord) (s : Snapshot) → IsConserved s → IsConserved (overlay ps s)
unfolding overlay
overlay-IsConserved [] s h = h
overlay-IsConserved (br ∷ older) s h =
    apply_events-IsConserved br.events (overlay older s) (overlay-IsConserved older s h)

merge_pending-IsConserved :
    (target : ℕ) (ps : List BlockRecord) (s : Snapshot)
    → IsConserved s
    → IsConserved (merge_pending target ps s).1
unfolding merge_pending
merge_pending-IsConserved target [] s h = h
merge_pending-IsConserved target (br ∷ older) s h =
    let earlier = merge_pending-IsConserved target older s h in
    elim (Bool-cases (leb br.number target)) [
      | inl e ↦ rw e (apply_events-IsConserved br.events (merge_pending target older s).1 earlier)
      | inr e ↦ rw e earlier
    ]

-- A rewind drops pending blocks; it never touches what is finalized.
rewind_pending-finalized :
    (chain : ChainReader) (ps : List BlockRecord) (l : Ledger)
    → (rewind_pending chain ps l).1.finalized ≡ l.finalized
unfolding rewind_pending
rewind_pending-finalized chain [] l = refl
rewind_pending-finalized chain (top ∷ older) l =
    elim (Option-cases (chain.header_hash top.number)) [
      | inl e ↦ rw (rewind_pending, e) refl
      | inr (h, e) ↦ elim (Bool-cases (nat_beq h top.hash)) [
        | inl b ↦ rw (rewind_pending, e, b) refl
        | inr b ↦ rw (rewind_pending, e, b) (rewind_pending-finalized chain older _)
      ]
    ]

after_rewind-finalized :
    (chain : ChainReader) (r : Rewound × Ledger)
    → (after_rewind chain r).1.finalized ≡ r.1.finalized
unfolding after_rewind
after_rewind-finalized chain (rewind_failed, l) = refl
after_rewind-finalized chain (at_canonical, l) = refl
after_rewind-finalized chain (window_dropped, l) = elim (Option-cases (check_checkpoint chain l)) [
  | inl e ↦ rw (after_rewind, e) refl
  | inr (err, e) ↦ rw (after_rewind, e) refl
]

rewind_reorg-finalized :
    (chain : ChainReader) (l : Ledger) → (rewind_reorg chain l).1.finalized ≡ l.finalized
unfolding rewind_reorg
rewind_reorg-finalized chain l =
    after_rewind-finalized chain (rewind_pending chain l.pending l)
    ∙ rewind_pending-finalized chain l.pending l

checkpoint-finalized :
    (chain : ChainReader) (target : ℕ) (l : Ledger)
    → (checkpoint chain target l).1.finalized ≡ l.finalized
unfolding checkpoint
checkpoint-finalized chain target l = ground arith

read_blocks-finalized :
    (chain : ChainReader) (head : ℕ) (l : Ledger)
    → (read_blocks chain head l).1.finalized ≡ l.finalized
unfolding read_blocks append_range
read_blocks-finalized chain head l = ground arith

merge_finalized-IsConserved :
    (chain : ChainReader) (target : ℕ) (l : Ledger)
    → IsConserved l.finalized
    → IsConserved (merge_finalized chain target l).1.finalized
unfolding merge_finalized
merge_finalized-IsConserved chain target l h =
    subst IsConserved
      (sym (
        checkpoint-finalized chain target (record l {
          pending = (merge_pending target l.pending l.finalized).0;
          finalized = (merge_pending target l.pending l.finalized).1;
        })))
      (merge_pending-IsConserved target l.pending l.finalized h)

and_then-IsConserved :
    (r : Option LedgerError × Ledger) (next : Ledger → Option LedgerError × Ledger)
    → IsConserved r.1.finalized
    → ((l : Ledger) → IsConserved l.finalized → IsConserved (next l).1.finalized)
    → IsConserved (and_then r next).1.finalized
and_then-IsConserved (some err, l) next h step = h
and_then-IsConserved (none, l) next h step = step l h

sync_from-IsConserved :
    (chain : ChainReader) (head : ℕ) (l : Ledger)
    → IsConserved l.finalized
    → IsConserved (sync_from chain head l).1.finalized
unfolding sync_from
sync_from-IsConserved chain head l h =
    and_then-IsConserved (read_blocks chain head l) _
      (subst IsConserved (sym (read_blocks-finalized chain head l)) h)
      (λ k c. merge_finalized-IsConserved chain _ _ c)

sync_incremental-finalized :
    (reader : Option ChainReader) (l : Ledger)
    → IsConserved l.finalized
    → IsConserved (sync_incremental reader l).1.finalized
unfolding sync_incremental
sync_incremental-finalized none l h = h
sync_incremental-finalized (some chain) l h = elim (Option-cases chain.head_number) [
  | inl e ↦ rw (sync_incremental, e) h
  | inr (head, e) ↦
      rw (sync_incremental, e)
        (and_then-IsConserved (rewind_reorg chain l) _
          (subst IsConserved (sym (rewind_reorg-finalized chain l)) h)
          (λ k c. sync_from-IsConserved chain head k c))
]

-- An incremental sync, whatever the node answers and whether it fails, keeps the supply equal
-- to the sum of the balances in the snapshot, if it was so in the finalized totals.
pub sync_incremental-IsConserved :
    (reader : Option ChainReader) (l : Ledger)
    → IsConserved l.finalized
    → IsConserved (snapshot (sync_incremental reader l).1)
unfolding snapshot
sync_incremental-IsConserved reader l h =
    overlay-IsConserved (sync_incremental reader l).1.pending _
      (sync_incremental-finalized reader l h)
