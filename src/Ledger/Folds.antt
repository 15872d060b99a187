-- ===== src/Ledger/Folds.antt =====
-- Replaying logs, and the pending window as a fold over the logs it was built from.
use stablecoin_x402_gateway.Base.{
  ℕ, ◌≤◌, ◌<◌, ◌≡◌, refl, none, some, List, [], ◌∷◌, ◌++◌, inl, inr, Option-cases, Bool-cases, All,
  nat_beq, arith,
}
use stablecoin_x402_gateway.Ledger.Totals.{
  Log, TransferEvent, Snapshot, parse_transfer_log, parse_transfer_logs, apply_event, apply_events,
}
use stablecoin_x402_gateway.Ledger.Incremental.{
  BlockRecord, overlay, append_event, append_events, merge_pending,
}

abbrev pub event_of : Log → List TransferEvent
event_of lg = elim (parse_transfer_log lg) [ none ↦ [] | some ev ↦ ev ∷ [] ]

pub apply_events-++ :
    (xs ys : List TransferEvent) (s : Snapshot)
    → apply_events (xs ++ ys) s ≡ apply_events ys (apply_events xs s)
unfolding apply_events
apply_events-++ [] ys s = refl
apply_events-++ (x ∷ xs) ys s = apply_events-++ xs ys (apply_event x s)

pub parse_transfer_logs-++ :
    (xs ys : List Log)
    → parse_transfer_logs (xs ++ ys) ≡ parse_transfer_logs xs ++ parse_transfer_logs ys
unfolding parse_transfer_logs
parse_transfer_logs-++ [] ys = refl
parse_transfer_logs-++ (x ∷ xs) ys = ground (arith, parse_transfer_logs-++ xs ys)

pub append_events-++ :
    (xs ys : List Log) (ps : List BlockRecord)
    → append_events (xs ++ ys) ps ≡ append_events ys (append_events xs ps)
unfolding append_events
append_events-++ [] ys ps = refl
append_events-++ (x ∷ xs) ys ps = append_events-++ xs ys _

overlay-append_event :
    (n h : ℕ) (ev : TransferEvent) (ps : List BlockRecord) (s : Snapshot)
    → overlay (append_event n h ev ps) s ≡ apply_event ev (overlay ps s)
unfolding overlay append_event apply_events
overlay-append_event n h ev [] s = refl
overlay-append_event n h ev (top ∷ older) s = elim (Bool-cases (nat_beq top.number n)) [
  | inl e ↦ rw e (apply_events-++ top.events (ev ∷ []) (overlay older s))
  | inr e ↦ rw e refl
]

-- The window overlays exactly the events of the logs it was built from.
pub overlay-append_events :
    (logs : List Log) (ps : List BlockRecord) (s : Snapshot)
    → overlay (append_events logs ps) s ≡ apply_events (parse_transfer_logs logs) (overlay ps s)
unfolding append_events parse_transfer_logs apply_events
overlay-append_events [] ps s = refl
overlay-append_events (lg ∷ logs) ps s = elim (Option-cases (parse_transfer_log lg)) [
  | inl e ↦ ground (arith, overlay-append_events logs ps s)
  | inr (ev, e) ↦ ground (
    arith,
    overlay-append_event lg.block_number lg.block_hash ev ps s,
    overlay-append_events logs (append_event lg.block_number lg.block_hash ev ps) s,
  )
]

abbrev pub IsAtMost : ℕ → List BlockRecord → Type 0
IsAtMost target ps = All (λ (br : BlockRecord). br.number ≤ target) ps

abbrev pub IsAbove : ℕ → List BlockRecord → Type 0
IsAbove target ps = All (λ (br : BlockRecord). target < br.number) ps

-- A block beyond the target never joins a block up to it.
append_event-IsAbove :
    (target n h : ℕ) (ev : TransferEvent) (ps qs : List BlockRecord)
    → target < n
    → IsAbove target ps
    → IsAtMost target qs
    → (append_event n h ev (ps ++ qs) ≡ append_event n h ev ps ++ qs)
      × IsAbove target (append_event n h ev ps)
unfolding append_event
append_event-IsAbove target n h ev [] [] lt above below = (refl, (lt, tt))
append_event-IsAbove target n h ev [] (q ∷ qs) lt above below = ground arith
append_event-IsAbove target n h ev (p ∷ ps) qs lt above below = ground arith

abbrev pub LogsAbove : ℕ → List Log → Type 0
LogsAbove target logs = All (λ (lg : Log). target < lg.block_number) logs

abbrev pub LogsAtMost : ℕ → List Log → Type 0
LogsAtMost target logs = All (λ (lg : Log). lg.block_number ≤ target) logs

append_events-IsAbove :
    (target : ℕ) (logs : List Log) (ps qs : List BlockRecord)
    → LogsAbove target logs
    → IsAbove target ps
    → IsAtMost target qs
    → (append_events logs (ps ++ qs) ≡ append_events logs ps ++ qs)
      × IsAbove target (append_events logs ps)
unfolding append_events
append_events-IsAbove target [] ps qs lt above below = (refl, above)
append_events-IsAbove target (lg ∷ logs) ps qs lt above below =
    elim (Option-cases (parse_transfer_log lg)) [
      | inl e ↦ rw e (append_events-IsAbove target logs ps qs lt.1 above below)
      | inr (ev, e) ↦
          let step =
            append_event-IsAbove target lg.block_number lg.block_hash ev ps qs lt.0 above below in
          rw (e, step.0) (append_events-IsAbove target logs _ qs lt.1 step.1 below)
    ]

append_event-IsAtMost :
    (target n h : ℕ) (ev : TransferEvent) (ps : List BlockRecord)
    → n ≤ target
    → IsAtMost target ps
    → IsAtMost target (append_event n h ev ps)
unfolding append_event
append_event-IsAtMost target n h ev [] le below = (le, tt)
append_event-IsAtMost target n h ev (p ∷ ps) le below = ground arith

pub append_events-IsAtMost :
    (target : ℕ) (logs : List Log) (ps : List BlockRecord)
    → LogsAtMost target logs
    → IsAtMost target ps
    → IsAtMost target (append_events logs ps)
unfolding append_events
append_events-IsAtMost target [] ps le below = below
append_events-IsAtMost target (lg ∷ logs) ps le below =
    elim (Option-cases (parse_transfer_log lg)) [
      | inl e ↦ rw e (append_events-IsAtMost target logs ps le.1 below)
      | inr (ev, e) ↦ rw e (
          append_events-IsAtMost target logs _ le.1
            (append_event-IsAtMost target lg.block_number lg.block_hash ev ps le.0 below))
    ]

merge_pending-IsAtMost :
    (target : ℕ) (qs : List BlockRecord) (s : Snapshot)
    → IsAtMost target qs
    → merge_pending target qs s ≡ ([], overlay qs s)
unfolding merge_pending overlay
merge_pending-IsAtMost target [] s below = refl
merge_pending-IsAtMost target (q ∷ qs) s below =
    ground (arith, merge_pending-IsAtMost target qs s below.1)

merge_pending-split :
    (target : ℕ) (ps qs : List BlockRecord) (s : Snapshot)
    → IsAbove target ps
    → IsAtMost target qs
    → merge_pending target (ps ++ qs) s ≡ (ps, overlay qs s)
unfolding merge_pending
merge_pending-split target [] qs s above below = merge_pending-IsAtMost target qs s below
merge_pending-split target (p ∷ ps) qs s above below =
    ground (arith, merge_pending-split target ps qs s above.1 below)

-- Merging a window splits the logs it was built from at the target.
pub merge_pending-append_events :
    (target : ℕ) (old new : List Log) (s : Snapshot)
    → LogsAtMost target old
    → LogsAbove target new
    → merge_pending target (append_events (old ++ new) []) s
      ≡ (append_events new [], apply_events (parse_transfer_logs old) s)
unfolding overlay
merge_pending-append_events target old new s le lt =
    let below = append_events-IsAtMost target old [] le tt in
    let split = append_events-IsAbove target new [] (append_events old []) lt tt below in
    rw
      (
        append_events-++ old new [],
        split.0,
        merge_pending-split target (append_events new []) (append_events old []) s split.1 below,
        overlay-append_events old [] s,
      )
      refl
