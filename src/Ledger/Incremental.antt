-- ===== src/Ledger/Incremental.antt =====
-- The ledger's state, the full rescan, and the incremental sync with its unfinalized window.
use stablecoin_x402_gateway.Base.{
  ℕ, ◌+◌, ◌-◌, ◌%◌, ◌^◌, Bool, true, false, ◌||◌, not, Option, none, some, List, [], ◌∷◌, ◌++◌,
  if◌then◌else◌, nat_beq, ltb, leb,
}
use stablecoin_x402_gateway.Ledger.Totals.{
  Log, TransferEvent, Snapshot, no_transfers, parse_transfer_log, parse_transfer_logs, apply_events,
}

pub record BlockRecord : Type 0 where
  pub number : ℕ
  pub hash : ℕ
  pub events : List TransferEvent

-- `pending` has the newest block first.
pub record Ledger : Type 0 where
  pub finality_depth : ℕ
  pub finalized : Snapshot
  pub pending : List BlockRecord
  pub last_seen : ℕ
  pub baseline : Bool
  pub finalized_block : ℕ
  pub finalized_hash : ℕ
  pub has_checkpoint : Bool

pub data LedgerError : Type 0 where
  no_chain_reader head_failed header_failed filter_failed deep_reorg : LedgerError
  total_supply_failed balance_failed : LedgerError

-- What the node answers during one call; `none` is an error. `filter_logs a none` has no last
-- block.
pub record ChainReader : Type 0 where
  pub head_number : Option ℕ
  pub header_hash : ℕ → Option ℕ
  pub filter_logs : ℕ → Option ℕ → Option (List Log)

abbrev pub new_chain : ℕ → Ledger
new_chain depth = record {
  finality_depth = if ltb 0 depth then depth else 12;
  finalized = no_transfers;
  pending = [];
  last_seen = 0;
  baseline = false;
  finalized_block = 0;
  finalized_hash = 0;
  has_checkpoint = false;
}

-- `if err != nil { return err }`, with the state at the return.
abbrev pub and_then :
    Option LedgerError × Ledger
    → (Ledger → Option LedgerError × Ledger)
    → Option LedgerError × Ledger
and_then (some err, l) next = (some err, l)
and_then (none, l) next = next l

-- The error, if any, and the state at the return.
unfoldable pub sync : ChainReader → Ledger → Option LedgerError × Ledger
sync chain l = elim (chain.filter_logs 0 none) [
  | none ↦ (some filter_failed, l)
  | some logs ↦
      (none, record l { finalized = apply_events (parse_transfer_logs logs) no_transfers })
]

unfoldable pub overlay : List BlockRecord → Snapshot → Snapshot
overlay [] s = s
overlay (br ∷ older) s = apply_events br.events (overlay older s)

unfoldable pub snapshot : Ledger → Snapshot
snapshot l = overlay l.pending l.finalized

unfoldable pub trusted_head : List BlockRecord → ℕ → ℕ
trusted_head [] finalized_block = finalized_block
trusted_head (top ∷ _) finalized_block = top.number

pub data Rewound : Type 0 where
  rewind_failed at_canonical window_dropped : Rewound

-- The loop of `rewindReorg`: `none` in the middle of it is a failed header read.
unfoldable pub rewind_pending : ChainReader → List BlockRecord → Ledger → Rewound × Ledger
rewind_pending chain [] l = (window_dropped, l)
rewind_pending chain (top ∷ older) l =
    let dropped : Ledger = record l {
      pending = older;
      last_seen = trusted_head older l.finalized_block;
    } in
    let rest = rewind_pending chain older dropped in
    elim (chain.header_hash top.number) [
      | none ↦ (rewind_failed, l)
      | some h ↦ if nat_beq h top.hash then (at_canonical, l) else rest
    ]

-- The check of the finality checkpoint, once the whole window is dropped.
unfoldable pub check_checkpoint : ChainReader → Ledger → Option LedgerError
check_checkpoint chain l =
    if l.has_checkpoint
    then elim (chain.header_hash l.finalized_block) [
      | none ↦ some header_failed
      | some h ↦ if nat_beq h l.finalized_hash then none else some deep_reorg
    ]
    else none

unfoldable pub after_rewind : ChainReader → Rewound × Ledger → Option LedgerError × Ledger
after_rewind chain (rewind_failed, l) = (some header_failed, l)
after_rewind chain (at_canonical, l) = (none, l)
after_rewind chain (window_dropped, l) = elim (check_checkpoint chain l) [
  | some err ↦ (some err, l)
  | none ↦ (none, record l { last_seen = trusted_head l.pending l.finalized_block })
]

unfoldable pub rewind_reorg : ChainReader → Ledger → Option LedgerError × Ledger
unfolding after_rewind
rewind_reorg chain l = after_rewind chain (rewind_pending chain l.pending l)

unfoldable pub append_event : ℕ → ℕ → TransferEvent → List BlockRecord → List BlockRecord
append_event number hash ev [] = record { number = number; hash = hash; events = ev ∷ [] } ∷ []
append_event number hash ev (top ∷ older) =
    if nat_beq top.number number
    then record top { events = top.events ++ ev ∷ [] } ∷ older
    else record { number = number; hash = hash; events = ev ∷ [] } ∷ top ∷ older

unfoldable pub append_events : List Log → List BlockRecord → List BlockRecord
append_events [] pending = pending
append_events (lg ∷ logs) pending = append_events logs (elim (parse_transfer_log lg) [
  | none ↦ pending
  | some ev ↦ append_event lg.block_number lg.block_hash ev pending
])

unfoldable pub append_range : ChainReader → ℕ → ℕ → Ledger → Option LedgerError × Ledger
append_range chain first last l = elim (chain.filter_logs first (some last)) [
  | none ↦ (some filter_failed, l)
  | some logs ↦ (none, record l { pending = append_events logs l.pending })
]

-- The blocks that stay pending, and the totals with the merged blocks, the oldest merged first.
unfoldable pub merge_pending : ℕ → List BlockRecord → Snapshot → List BlockRecord × Snapshot
merge_pending target [] s = ([], s)
merge_pending target (br ∷ older) s =
    let (kept, merged) = merge_pending target older s in
    if leb br.number target then (kept, apply_events br.events merged) else (br ∷ kept, merged)

unfoldable pub checkpoint : ChainReader → ℕ → Ledger → Option LedgerError × Ledger
checkpoint chain target l =
    if not l.has_checkpoint || ltb l.finalized_block target
    then elim (chain.header_hash target) [
      | none ↦ (some header_failed, l)
      | some h ↦
          (none, record l { finalized_block = target; finalized_hash = h; has_checkpoint = true })
    ]
    else (none, l)

unfoldable pub merge_finalized : ChainReader → ℕ → Ledger → Option LedgerError × Ledger
merge_finalized chain target l =
    let (kept, merged) = merge_pending target l.pending l.finalized in
    checkpoint chain target (record l { pending = kept; finalized = merged })

-- `uint64` subtraction under the guard.
unfoldable pub finalized_target : ℕ → ℕ → ℕ
finalized_target head depth = if ltb head depth then 0 else head - depth

-- `l.lastSeen + 1` is a `uint64` addition.
unfoldable pub next_block : Ledger → ℕ
next_block l = if l.baseline then (l.last_seen + 1) % 2 ^ 64 else 0

unfoldable pub read_blocks : ChainReader → ℕ → Ledger → Option LedgerError × Ledger
unfolding next_block
read_blocks chain head l =
    if leb (next_block l) head then append_range chain (next_block l) head l else (none, l)

unfoldable pub sync_from : ChainReader → ℕ → Ledger → Option LedgerError × Ledger
unfolding read_blocks
sync_from chain head rewound = and_then (read_blocks chain head rewound) λ l.
    merge_finalized chain (finalized_target head l.finality_depth)
      (record l { last_seen = head; baseline = true })

-- `none` for the reader is a ledger made by `New`.
unfoldable pub sync_incremental : Option ChainReader → Ledger → Option LedgerError × Ledger
unfolding sync_from
sync_incremental none l = (some no_chain_reader, l)
sync_incremental (some chain) l = elim chain.head_number [
  | none ↦ (some head_failed, l)
  | some head ↦ and_then (rewind_reorg chain l) (sync_from chain head)
]
