-- ===== src/Ledger/Rewind.antt =====
-- A rewind and a read keep the ledger in step with a chain that only grows.
use stablecoin_x402_gateway.Base.{
  ℕ, suc, ◌^◌, ◌≤◌, ◌<◌, ◌≡◌, refl, sym, ap, ◌∙◌, none, some, List, [], ◌∷◌, inl, inr, Bool-cases,
  leb, arith,
}
use mathlib.Core.Path.{subst}
use stablecoin_x402_gateway.Ledger.Totals.{
  Log, Snapshot, parse_transfer_logs, apply_events, no_transfers,
}
use stablecoin_x402_gateway.Ledger.Incremental.{
  BlockRecord, ChainReader, Ledger, append_events, rewind_reorg, rewind_pending, after_rewind,
  check_checkpoint, trusted_head, next_block, read_blocks,
}
use stablecoin_x402_gateway.Ledger.Folds.{append_events-++, append_events-IsAtMost, IsAtMost}
use stablecoin_x402_gateway.Ledger.Ranges.{
  logs_in, logs_in_empty, logs_in_split, logs_in-LogsAtMost, logs_in-HasHashes,
  append_events-AreCanonical, AreCanonical, IsNode, InStep, IsAscending, merged_to, seen_to,
}
use stablecoin_x402_gateway.Ledger.Calls.{
  rewind_reorg-dropped, rewind_reorg-canonical, read_blocks-found, read_blocks-nothing, all_seen,
  at_most_le,
}

module _ (hashes : ℕ → ℕ) (logs : List Log) where
  abbrev pub replayed : ℕ → Snapshot
  replayed stop = apply_events (parse_transfer_logs (logs_in 0 stop logs)) no_transfers

  pending-AreCanonical :
      (head : ℕ) (chain : ChainReader) (l : Ledger)
      → IsNode hashes logs head chain
      → InStep hashes logs l
      → AreCanonical hashes l.pending
  pending-AreCanonical head chain l node step = rw step.is_pending (
      append_events-AreCanonical hashes _ []
        (logs_in-HasHashes hashes (merged_to l) (seen_to l) logs node.has_hashes) tt)

  pending-IsAtMost :
      (head : ℕ) (l : Ledger) → InStep hashes logs l → l.last_seen ≤ head → IsAtMost head l.pending
  unfolding append_events
  pending-IsAtMost head l step le = elim (Bool-cases l.baseline) [
    | inl b ↦
        let seen = logs_in-LogsAtMost (suc l.finalized_block) l.last_seen logs in
        rw (step.is_pending, b)
          (append_events-IsAtMost head _ [] (at_most_le l.last_seen head _ le seen) tt)
    | inr b ↦ rw (step.is_pending, b, logs_in_empty 0 logs) tt
  ]

  check_checkpoint_lem :
      (head : ℕ) (chain : ChainReader) (l : Ledger)
      → IsNode hashes logs head chain
      → InStep hashes logs l
      → l.last_seen ≤ head
      → check_checkpoint chain l ≡ none
  unfolding check_checkpoint
  check_checkpoint_lem head chain l node step le = elim (Bool-cases l.baseline) [
    | inl b ↦
        let known = node.knows_headers l.finalized_block (omega (arith, step.is_ordered)) in
        rw (step.is_checked, b, known) (ground (arith, step.has_hash b))
    | inr b ↦ rw (step.is_checked, b) refl
  ]

  -- A rewind keeps the ledger in step: nothing is dropped, and an empty window rereads from the
  -- finality checkpoint on.
  pub rewind_reorg-InStep :
      (head : ℕ) (chain : ChainReader) (l : Ledger)
      → IsNode hashes logs head chain
      → InStep hashes logs l
      → l.last_seen ≤ head
      → (k : Ledger) × (rewind_reorg chain l ≡ (none, k))
        × InStep hashes logs k
        × (k.last_seen ≤ head)
  unfolding rewind_reorg after_rewind rewind_pending trusted_head append_events
  rewind_reorg-InStep head chain l node step le = go l.pending refl
    where
      known :
          (top : BlockRecord) (older : List BlockRecord)
          → AreCanonical hashes (top ∷ older)
          → IsAtMost head (top ∷ older)
          → chain.header_hash top.number ≡ some top.hash
      known top older canonical below = node.knows_headers top.number below.0 ∙ ap some canonical.0

      go :
          (ps : List BlockRecord)
          → l.pending ≡ ps
          → (k : Ledger) × (rewind_reorg chain l ≡ (none, k))
            × InStep hashes logs k
            × (k.last_seen ≤ head)
      go [] e = (
        record l { last_seen = l.finalized_block },
        rewind_reorg-dropped chain l e (check_checkpoint_lem head chain l node step le),
        record {
          is_merged = step.is_merged;
          is_pending = e ∙ sym (ap (λ x. append_events x []) (logs_in_empty (merged_to l) logs));
          is_checked = step.is_checked;
          has_hash = step.has_hash;
          is_fresh = λ b. ((step.is_fresh b).1, (step.is_fresh b).1);
          is_ordered = omega arith;
        },
        omega (arith, step.is_ordered),
      )
      go (top ∷ older) e = (
        l,
        rewind_reorg-canonical chain l top older e (
            known top older
              (subst (AreCanonical hashes) e (pending-AreCanonical head chain l node step))
              (subst (IsAtMost head) e (pending-IsAtMost head l step le))),
        step,
        le,
      )

  abbrev pub read_to : ℕ → Ledger → Ledger
  read_to head l = record l { pending = append_events (logs_in (merged_to l) (suc head) logs) [] }

  next_block-seen_to : (l : Ledger) → suc l.last_seen < 2 ^ 64 → next_block l ≡ seen_to l
  unfolding next_block
  next_block-seen_to l small = ground arith

  merged_to_le : (l : Ledger) → InStep hashes logs l → merged_to l ≤ seen_to l
  merged_to_le l step = ground (arith, step.is_ordered)

  seen_to_le : (head : ℕ) (l : Ledger) → l.last_seen ≤ head → seen_to l ≤ suc head
  seen_to_le head l le = ground arith

  -- The window and the new logs together are the window up to the new head.
  pending_extends :
      (head : ℕ) (l : Ledger)
      → IsAscending 0 logs
      → InStep hashes logs l
      → l.last_seen ≤ head
      → append_events (logs_in (seen_to l) (suc head) logs) l.pending
        ≡ append_events (logs_in (merged_to l) (suc head) logs) []
  pending_extends head l up step le =
      rw
        (
          step.is_pending,
          logs_in_split 0 (merged_to l) (seen_to l) (suc head) logs (merged_to_le l step)
              (seen_to_le head l le) up,
        )
        (sym (append_events-++ (logs_in (merged_to l) (seen_to l) logs) _ []))

  pub read_blocks_lem :
      (head : ℕ) (chain : ChainReader) (l : Ledger)
      → IsNode hashes logs head chain
      → InStep hashes logs l
      → l.last_seen ≤ head
      → suc head < 2 ^ 64
      → read_blocks chain head l ≡ (none, read_to head l)
  unfolding append_events
  read_blocks_lem head chain l node step le small =
      let next = next_block-seen_to l (omega arith) in
      let extends = pending_extends head l node.ascending step le in
      elim (Bool-cases (leb (seen_to l) head)) [
        | inl b ↦
            read_blocks-found chain head l (logs_in (seen_to l) (suc head) logs) (rw next b)
              (rw next (node.filters (seen_to l) head))
            ∙ ap (λ ps. (none, record l { pending = ps })) extends
        | inr b ↦
            let all_read : seen_to l ≡ suc head =
              all_seen (seen_to l) head (seen_to_le head l le) b in
            let none_left : logs_in (seen_to l) (suc head) logs ≡ [] =
              rw all_read (logs_in_empty (suc head) logs) in
            read_blocks-nothing chain head l (rw next b)
            ∙ ap (λ ps. (none, record l { pending = ps }))
                (sym (ap (λ ls. append_events ls l.pending) none_left) ∙ extends)
      ]
