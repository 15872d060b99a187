-- ===== src/Ledger/Calls.antt =====
-- What the operations of the ledger return, where the answers of the node are known.
use stablecoin_x402_gateway.Base.{
  ℕ, suc, ◌≤◌, ◌≡◌, refl, true, false, ◌||◌, not, none, some, List, [], ◌∷◌, ltb, leb, arith,
}
use stablecoin_x402_gateway.Ledger.Totals.{
  Log, Snapshot, parse_transfer_logs, apply_events, no_transfers,
}
use stablecoin_x402_gateway.Ledger.Incremental.{
  BlockRecord, ChainReader, Ledger, append_events, merge_pending, rewind_reorg, rewind_pending,
  after_rewind, check_checkpoint, trusted_head, next_block, read_blocks, append_range, checkpoint,
  merge_finalized, finalized_target, sync_from, sync_incremental, sync,
}
use stablecoin_x402_gateway.Ledger.Folds.{LogsAtMost}

pub rewind_reorg-dropped :
    (chain : ChainReader) (l : Ledger)
    → l.pending ≡ []
    → check_checkpoint chain l ≡ none
    → rewind_reorg chain l ≡ (none, record l { last_seen = l.finalized_block })
unfolding rewind_reorg after_rewind rewind_pending trusted_head
rewind_reorg-dropped chain l e c = ground arith

pub rewind_reorg-canonical :
    (chain : ChainReader) (l : Ledger) (top : BlockRecord) (older : List BlockRecord)
    → l.pending ≡ top ∷ older
    → chain.header_hash top.number ≡ some top.hash
    → rewind_reorg chain l ≡ (none, l)
unfolding rewind_reorg after_rewind rewind_pending
rewind_reorg-canonical chain l top older e c = ground arith

pub read_blocks-found :
    (chain : ChainReader) (head : ℕ) (l : Ledger) (found : List Log)
    → leb (next_block l) head ≡ true
    → chain.filter_logs (next_block l) (some head) ≡ some found
    → read_blocks chain head l ≡ (none, record l { pending = append_events found l.pending })
unfolding read_blocks append_range
read_blocks-found chain head l found b f = ground arith

pub read_blocks-nothing :
    (chain : ChainReader) (head : ℕ) (l : Ledger)
    → leb (next_block l) head ≡ false
    → read_blocks chain head l ≡ (none, l)
unfolding read_blocks
read_blocks-nothing chain head l b = rw b refl

pub merge_finalized-moved :
    (chain : ChainReader) (target h : ℕ) (l : Ledger) (kept : List BlockRecord) (merged : Snapshot)
    → merge_pending target l.pending l.finalized ≡ (kept, merged)
    → not l.has_checkpoint || ltb l.finalized_block target ≡ true
    → chain.header_hash target ≡ some h
    → merge_finalized chain target l ≡ (
      none,
      record l {
        finalized = merged;
        pending = kept;
        finalized_block = target;
        finalized_hash = h;
        has_checkpoint = true;
      },
    )
unfolding merge_finalized checkpoint
merge_finalized-moved chain target h l kept merged e moves known = ground arith

pub merge_finalized-stays :
    (chain : ChainReader) (target : ℕ) (l : Ledger) (kept : List BlockRecord) (merged : Snapshot)
    → merge_pending target l.pending l.finalized ≡ (kept, merged)
    → not l.has_checkpoint || ltb l.finalized_block target ≡ false
    → merge_finalized chain target l ≡ (none, record l { finalized = merged; pending = kept })
unfolding merge_finalized checkpoint
merge_finalized-stays chain target l kept merged e stays = rw (e, stays) refl

pub sync_from-read :
    (chain : ChainReader) (head : ℕ) (l m : Ledger)
    → read_blocks chain head l ≡ (none, m)
    → sync_from chain head l
      ≡ merge_finalized chain
          (finalized_target head m.finality_depth)
          (record m { last_seen = head; baseline = true })
unfolding sync_from
sync_from-read chain head l m e = rw e refl

pub finalized_target_le : (head depth : ℕ) → finalized_target head depth ≤ head
unfolding finalized_target
finalized_target_le head depth = ground arith

pub sync-filtered :
    (chain : ChainReader) (l : Ledger) (logs : List Log)
    → chain.filter_logs 0 none ≡ some logs
    → (sync chain l).1.finalized ≡ apply_events (parse_transfer_logs logs) no_transfers
unfolding sync
sync-filtered chain l logs e = ground arith

pub all_seen : (seen head : ℕ) → seen ≤ suc head → leb seen head ≡ false → seen ≡ suc head
all_seen seen head le b = ground arith

pub at_most_le :
    (low high : ℕ) (logs : List Log) → low ≤ high → LogsAtMost low logs → LogsAtMost high logs
at_most_le low high [] le h = tt
at_most_le low high (lg ∷ logs) le h = (omega (arith, h.0), at_most_le low high logs le h.1)

pub sync_incremental-sync_from :
    (head : ℕ) (chain : ChainReader) (l k : Ledger)
    → chain.head_number ≡ some head
    → rewind_reorg chain l ≡ (none, k)
    → sync_incremental (some chain) l ≡ sync_from chain head k
unfolding sync_incremental append_range merge_finalized checkpoint
sync_incremental-sync_from head chain l k known e = rw (known, e) refl
