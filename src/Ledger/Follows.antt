-- ===== src/Ledger/Follows.antt =====
-- The incremental sync follows the full rescan on a chain that only grows.
use stablecoin_x402_gateway.Base.{
  ℕ, suc, ◌^◌, ◌≤◌, ◌<◌, ◌≡◌, refl, sym, ap, ◌∙◌, true, false, ◌||◌, not, none, some, List, [], inl,
  inr, Bool-cases, ltb, arith,
}
use mathlib.Core.Path.{subst}
use stablecoin_x402_gateway.Ledger.Totals.{Log, parse_transfer_logs, apply_events, no_transfers}
use stablecoin_x402_gateway.Ledger.Incremental.{
  ChainReader, Ledger, append_events, merge_pending, finalized_target, new_chain, overlay,
  sync_from, sync_incremental, sync, snapshot,
}
use stablecoin_x402_gateway.Ledger.Folds.{
  apply_events-++, parse_transfer_logs-++, overlay-append_events, merge_pending-append_events,
  LogsAtMost,
}
use stablecoin_x402_gateway.Ledger.Ranges.{
  logs_in, logs_in_empty, logs_in_split, logs_in-LogsAtMost, logs_in-LogsAbove, IsNode, InStep,
  IsAscending, merged_to,
}
use stablecoin_x402_gateway.Ledger.Calls.{
  sync_incremental-sync_from, merge_finalized-moved, merge_finalized-stays, sync_from-read,
  finalized_target_le, sync-filtered,
}
use stablecoin_x402_gateway.Ledger.Rewind.{replayed, rewind_reorg-InStep, read_blocks_lem}

module _ (hashes : ℕ → ℕ) (logs : List Log) where
  replayed-++ :
      (mid stop : ℕ)
      → IsAscending 0 logs
      → mid ≤ stop
      → apply_events (parse_transfer_logs (logs_in mid stop logs)) (replayed hashes logs mid)
        ≡ replayed hashes logs stop
  replayed-++ mid stop up le =
      rw
        (
          logs_in_split 0 0 mid stop logs (omega arith) le up,
          parse_transfer_logs-++ (logs_in 0 mid logs) (logs_in mid stop logs),
        )
        (sym (apply_events-++ (parse_transfer_logs (logs_in 0 mid logs)) _ no_transfers))

  -- A merge that makes the blocks before `cut` final.
  merge_pending_cut :
      (target head cut : ℕ) (l : Ledger)
      → IsAscending 0 logs
      → InStep hashes logs l
      → merged_to l ≤ cut
      → target < cut
      → cut ≤ suc head
      → LogsAtMost target (logs_in (merged_to l) cut logs)
      → merge_pending target (append_events (logs_in (merged_to l) (suc head) logs) []) l.finalized
        ≡ (append_events (logs_in cut (suc head) logs) [], replayed hashes logs cut)
  merge_pending_cut target head cut l up step from_merged beyond to_head old =
      ap (λ ls. merge_pending target (append_events ls []) l.finalized)
        (logs_in_split 0 (merged_to l) cut (suc head) logs from_merged to_head up)
      ∙ merge_pending-append_events target (logs_in (merged_to l) cut logs)
          (logs_in cut (suc head) logs) l.finalized old
          (logs_in-LogsAbove target cut (suc head) logs beyond)
      ∙ ap (λ s. (append_events (logs_in cut (suc head) logs) [], s))
          (ap (apply_events (parse_transfer_logs (logs_in (merged_to l) cut logs))) step.is_merged
            ∙ replayed-++ (merged_to l) cut up from_merged)

  merged_to_moves :
      (l : Ledger) (target : ℕ)
      → InStep hashes logs l
      → not l.has_checkpoint || ltb l.finalized_block target ≡ true
      → merged_to l ≤ suc target
  merged_to_moves l target step moves = ground (arith, step.is_checked)

  merged_to_stays :
      (l : Ledger) (target : ℕ)
      → InStep hashes logs l
      → not l.has_checkpoint || ltb l.finalized_block target ≡ false
      → (l.baseline ≡ true) × (merged_to l ≡ suc l.finalized_block) × (target ≤ l.finalized_block)
  merged_to_stays l target step stays = ground (arith, step.is_checked)

  Synced : ℕ → ChainReader → Ledger → Type 0
  Synced head chain l =
      (k : Ledger) × (sync_from chain head l ≡ (none, k))
      × InStep hashes logs k
      × (k.last_seen ≡ head)
      × (k.baseline ≡ true)

  sync_from-InStep :
      (head : ℕ) (chain : ChainReader) (l : Ledger)
      → IsNode hashes logs head chain
      → InStep hashes logs l
      → l.last_seen ≤ head
      → suc head < 2 ^ 64
      → Synced head chain l
  unfolding Synced
  sync_from-InStep head chain l node step le small =
      let target = finalized_target head l.finality_depth in
      let to_head : target ≤ head = finalized_target_le head l.finality_depth in
      let read =
        sync_from-read chain head l _
          (read_blocks_lem hashes logs head chain l node step le small) in
      elim (Bool-cases (not l.has_checkpoint || ltb l.finalized_block target)) [
        | inl moves ↦
            let merged =
              merge_pending_cut target head (suc target) l node.ascending step
                (merged_to_moves l target step moves) (omega arith) (omega arith)
                (logs_in-LogsAtMost (merged_to l) target logs) in
            (
              _,
              read
                  ∙ merge_finalized-moved chain target (hashes target) _ _ _ merged moves
                      (node.knows_headers target to_head),
              record {
                is_merged = refl;
                is_pending = refl;
                is_checked = refl;
                has_hash = λ b. refl;
                is_fresh = λ b. ground arith;
                is_ordered = to_head;
              },
              refl,
              refl,
            )
        | inr stays ↦
            let fixed = merged_to_stays l target step stays in
            let merged =
              merge_pending_cut target head (suc l.finalized_block) l node.ascending step
                (omega (arith, fixed.1)) (omega (arith, fixed.2))
                (omega (arith, le, step.is_ordered))
                (rw (fixed.1, logs_in_empty (suc l.finalized_block) logs) tt) in
            (
              _,
              read ∙ merge_finalized-stays chain target _ _ _ merged stays,
              record {
                is_merged = refl;
                is_pending = refl;
                is_checked = step.is_checked ∙ fixed.0;
                has_hash = λ b. step.has_hash fixed.0;
                is_fresh = λ b. ground arith;
                is_ordered = omega (arith, le, step.is_ordered);
              },
              refl,
              refl,
            )
      ]

  -- A ledger that `NewChain` made and that has synced any number of times with nodes of the chain.
  pub data Runs : Ledger → Type 0 where
    started : (depth : ℕ) → Runs (new_chain depth)
    synced :
        {head : ℕ} {chain : ChainReader} {l : Ledger}
        → Runs l
        → IsNode hashes logs head chain
        → l.last_seen ≤ head
        → suc head < 2 ^ 64
        → Runs (sync_incremental (some chain) l).1

  Kept : ℕ → ChainReader → Ledger → Type 0
  Kept head chain l =
      (k : Ledger) × (sync_incremental (some chain) l ≡ (none, k))
      × InStep hashes logs k
      × (k.last_seen ≡ head)
      × (k.baseline ≡ true)

  sync_incremental-InStep :
      (head : ℕ) (chain : ChainReader) (l : Ledger)
      → IsNode hashes logs head chain
      → InStep hashes logs l
      → l.last_seen ≤ head
      → suc head < 2 ^ 64
      → Kept head chain l
  unfolding Kept Synced
  sync_incremental-InStep head chain l node step le small =
      let (k, rewound, step', le') = rewind_reorg-InStep hashes logs head chain l node step le in
      let (r, read, step'', last, base) = sync_from-InStep head chain k node step' le' small in
      (
        r,
        sync_incremental-sync_from head chain l k node.knows_head rewound ∙ read,
        step'',
        last,
        base,
      )

  Runs-InStep : {l : Ledger} → Runs l → InStep hashes logs l
  unfolding apply_events parse_transfer_logs append_events Kept
  Runs-InStep (started depth) = record {
    is_merged = rw (logs_in_empty 0 logs) refl;
    is_pending = rw (logs_in_empty 0 logs) refl;
    is_checked = refl;
    has_hash = λ b. ground arith;
    is_fresh = λ b. (refl, refl);
    is_ordered = omega arith;
  }
  Runs-InStep (synced {head} {chain} {l} run node le small) =
      let (k, e, step, _, _) =
        sync_incremental-InStep head chain l node (Runs-InStep run) le small in
      subst (InStep hashes logs) (sym (ap (λ r. r.1) e)) step

  snapshot-InStep :
      (head : ℕ) (k : Ledger)
      → IsAscending 0 logs
      → InStep hashes logs k
      → k.last_seen ≡ head
      → k.baseline ≡ true
      → snapshot k ≡ replayed hashes logs (suc head)
  unfolding snapshot overlay
  snapshot-InStep head k up step last base =
      rw
        (
          step.is_pending,
          step.is_merged,
          overlay-append_events _ [] (replayed hashes logs (merged_to k)),
          base,
          last,
        )
        (replayed-++ (suc k.finalized_block) (suc head) up (omega (arith, step.is_ordered, last)))

  -- On a chain that only grows, an incremental sync never fails, and the snapshot after it is
  -- what the full rescan computes: the same supply, balances and number of events.
  pub sync_incremental-sync :
      {l : Ledger} {head : ℕ} {chain : ChainReader}
      → Runs l
      → IsNode hashes logs head chain
      → l.last_seen ≤ head
      → suc head < 2 ^ 64
      → ((sync_incremental (some chain) l).0 ≡ none)
        × (snapshot (sync_incremental (some chain) l).1 ≡ (sync chain l).1.finalized)
  unfolding Kept
  sync_incremental-sync {l} {head} {chain} run node le small =
      let (k, e, step, last, base) =
        sync_incremental-InStep head chain l node (Runs-InStep run) le small in
      (
        ap (λ r. r.0) e,
        ap (λ r. snapshot r.1) e
            ∙ snapshot-InStep head k node.ascending step last base
            ∙ sym (sync-filtered chain l _ node.filters_all),
      )
