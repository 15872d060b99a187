-- ===== src/Ledger/Reorgs.antt =====
-- What a rewind leaves, and what a sync does not read.
use stablecoin_x402_gateway.Base.{
  ℕ, ◌≡◌, refl, sym, ◌∙◌, true, Option, none, some, List, [], ◌∷◌, inl, inr, Bool-cases,
  Option-cases, nat_beq, arith,
}
use stablecoin_x402_gateway.Ledger.Totals.{Log}
use stablecoin_x402_gateway.Ledger.Incremental.{
  BlockRecord, ChainReader, Ledger, Rewound, rewind_pending, rewind_reorg, after_rewind,
  check_checkpoint, read_blocks, append_range, merge_finalized, checkpoint, sync_from,
  sync_incremental, next_block, rewind_failed, at_canonical, window_dropped,
}
use stablecoin_x402_gateway.Ledger.Calls.{rewind_reorg-canonical, sync_incremental-sync_from}

-- The newest block the ledger trusts is a block of the chain.
pub TopIsCanonical : ChainReader → Ledger → Type 0
TopIsCanonical chain l = elim l.pending [
  | [] ↦ l.has_checkpoint ≡ true → chain.header_hash l.finalized_block ≡ some l.finalized_hash
  | top ∷ _ ↦ chain.header_hash top.number ≡ some top.hash
]

-- What the loop stops at.
Stopped : ChainReader → Rewound × Ledger → Type 0
Stopped chain (rewind_failed, l) = Unit
Stopped chain (at_canonical, l) = TopIsCanonical chain l
Stopped chain (window_dropped, l) = l.pending ≡ []

rewind_pending-Stopped :
    (chain : ChainReader) (ps : List BlockRecord) (l : Ledger)
    → l.pending ≡ ps
    → Stopped chain (rewind_pending chain ps l)
unfolding Stopped TopIsCanonical rewind_pending
rewind_pending-Stopped chain [] l e = e
rewind_pending-Stopped chain (top ∷ older) l e =
    elim (Option-cases (chain.header_hash top.number)) [
      | inl none_read ↦ rw (rewind_pending, none_read) tt
      | inr (h, read) ↦ elim (Bool-cases (nat_beq h top.hash)) [
        | inl b ↦ rw (rewind_pending, read, b, e) (ground arith)
        | inr b ↦ rw (rewind_pending, read, b) (rewind_pending-Stopped chain older _ refl)
      ]
    ]

check_checkpoint-none :
    (chain : ChainReader) (l : Ledger)
    → check_checkpoint chain l ≡ none
    → l.has_checkpoint ≡ true
    → chain.header_hash l.finalized_block ≡ some l.finalized_hash
unfolding check_checkpoint
check_checkpoint-none chain l passed has = ground arith

after_rewind-TopIsCanonical :
    (chain : ChainReader) (r : Rewound × Ledger)
    → Stopped chain r
    → (after_rewind chain r).0 ≡ none
    → TopIsCanonical chain (after_rewind chain r).1
unfolding Stopped TopIsCanonical after_rewind
after_rewind-TopIsCanonical chain (rewind_failed, l) h e = ground arith
after_rewind-TopIsCanonical chain (at_canonical, l) h e = h
after_rewind-TopIsCanonical chain (window_dropped, l) h e =
    elim (Option-cases (check_checkpoint chain l)) [
      | inl passed ↦ rw (after_rewind, passed, h) (check_checkpoint-none chain l passed)
      | inr (err, failed) ↦ ground arith
    ]

-- A rewind that succeeds leaves a window whose newest block is a block of the chain, or an empty
-- window above a finality checkpoint that is a block of the chain.
pub rewind_reorg-TopIsCanonical :
    (chain : ChainReader) (l : Ledger)
    → (rewind_reorg chain l).0 ≡ none
    → TopIsCanonical chain (rewind_reorg chain l).1
unfolding rewind_reorg
rewind_reorg-TopIsCanonical chain l e =
    after_rewind-TopIsCanonical chain _ (rewind_pending-Stopped chain l.pending l refl) e

sync_from-same :
    (chain : ChainReader) (filter : ℕ → Option ℕ → Option (List Log)) (head : ℕ) (l : Ledger)
    → filter (next_block l) (some head) ≡ chain.filter_logs (next_block l) (some head)
    → sync_from (record chain { filter_logs = filter }) head l ≡ sync_from chain head l
unfolding sync_from read_blocks append_range merge_finalized checkpoint
sync_from-same chain filter head l same = rw (append_range, same) refl

-- A sync whose newest pending block is a block of the chain reads no log before `next_block`:
-- where the chain replaced later blocks that the ledger has seen, and that had no transfers,
-- their new logs change nothing.
pub sync_incremental-canonical_top :
    (chain : ChainReader) (filter : ℕ → Option ℕ → Option (List Log)) (head : ℕ) (l : Ledger)
    (top : BlockRecord) (older : List BlockRecord)
    → l.pending ≡ top ∷ older
    → chain.header_hash top.number ≡ some top.hash
    → chain.head_number ≡ some head
    → filter (next_block l) (some head) ≡ chain.filter_logs (next_block l) (some head)
    → sync_incremental (some (record chain { filter_logs = filter })) l
      ≡ sync_incremental (some chain) l
sync_incremental-canonical_top chain filter head l top older e canonical known same =
    let chain' : ChainReader = record chain { filter_logs = filter } in
    let here = rewind_reorg-canonical chain l top older e canonical in
    let there = rewind_reorg-canonical chain' l top older e canonical in
    sync_incremental-sync_from head chain' l l known there
    ∙ sync_from-same chain filter head l same
    ∙ sym (sync_incremental-sync_from head chain l l known here)
