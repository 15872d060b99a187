-- ===== src/Ledger/Ranges.antt =====
-- The logs of a chain by block range, and what a node and a ledger know of the chain.
use stablecoin_x402_gateway.Base.{
  ℕ, suc, ◌≤◌, ◌<◌, ◌≡◌, refl, true, false, ◌&&◌, Option, none, some, List, [], ◌∷◌, ◌++◌, All,
  if◌then◌else◌, ltb, leb, arith,
}
use stablecoin_x402_gateway.Ledger.Totals.{
  TransferEvent, Log, parse_transfer_log, parse_transfer_logs, apply_events, no_transfers,
}
use stablecoin_x402_gateway.Ledger.Incremental.{
  BlockRecord, ChainReader, Ledger, append_event, append_events,
}
use stablecoin_x402_gateway.Ledger.Folds.{LogsAbove, LogsAtMost}

-- The logs of the blocks from `first` to before `stop`.
abbrev pub logs_in : ℕ → ℕ → List Log → List Log
logs_in first stop [] = []
logs_in first stop (lg ∷ logs) =
    let rest = logs_in first stop logs in
    if leb first lg.block_number && ltb lg.block_number stop then lg ∷ rest else rest

abbrev pub IsAscending : ℕ → List Log → Type 0
IsAscending low [] = Unit
IsAscending low (lg ∷ logs) = (low ≤ lg.block_number) × IsAscending lg.block_number logs

pub logs_in_beyond :
    (low first stop : ℕ) (logs : List Log)
    → stop ≤ low
    → IsAscending low logs
    → logs_in first stop logs ≡ []
logs_in_beyond low first stop [] le up = refl
logs_in_beyond low first stop (lg ∷ logs) le up =
    ground (arith, logs_in_beyond lg.block_number first stop logs (omega arith) up.1)

pub logs_in_empty : (first : ℕ) (logs : List Log) → logs_in first first logs ≡ []
logs_in_empty first [] = refl
logs_in_empty first (lg ∷ logs) = ground (arith, logs_in_empty first logs)

pub logs_in_split :
    (low first mid stop : ℕ) (logs : List Log)
    → first ≤ mid
    → mid ≤ stop
    → IsAscending low logs
    → logs_in first stop logs ≡ logs_in first mid logs ++ logs_in mid stop logs
logs_in_split low first mid stop [] le le' up = refl
logs_in_split low first mid stop (lg ∷ logs) le le' up = ground (
  arith,
  logs_in_split lg.block_number first mid stop logs le le' up.1,
  logs_in_beyond lg.block_number first mid logs,
)

pub logs_in-LogsAtMost :
    (first last : ℕ) (logs : List Log) → LogsAtMost last (logs_in first (suc last) logs)
logs_in-LogsAtMost first last [] = tt
logs_in-LogsAtMost first last (lg ∷ logs) = ground (arith, logs_in-LogsAtMost first last logs)

pub logs_in-LogsAbove :
    (last first stop : ℕ) (logs : List Log)
    → last < first
    → LogsAbove last (logs_in first stop logs)
logs_in-LogsAbove last first stop [] lt = tt
logs_in-LogsAbove last first stop (lg ∷ logs) lt =
    ground (arith, logs_in-LogsAbove last first stop logs lt)

-- The hash of each block stands in its logs.
abbrev pub HasHashes : (ℕ → ℕ) → List Log → Type 0
HasHashes hashes logs = All (λ (lg : Log). hashes lg.block_number ≡ lg.block_hash) logs

abbrev pub AreCanonical : (ℕ → ℕ) → List BlockRecord → Type 0
AreCanonical hashes ps = All (λ (br : BlockRecord). hashes br.number ≡ br.hash) ps

pub logs_in-HasHashes :
    (hashes : ℕ → ℕ) (first stop : ℕ) (logs : List Log)
    → HasHashes hashes logs
    → HasHashes hashes (logs_in first stop logs)
logs_in-HasHashes hashes first stop [] h = tt
logs_in-HasHashes hashes first stop (lg ∷ logs) h =
    ground (arith, logs_in-HasHashes hashes first stop logs h.1)

pub append_events-AreCanonical :
    (hashes : ℕ → ℕ) (logs : List Log) (ps : List BlockRecord)
    → HasHashes hashes logs
    → AreCanonical hashes ps
    → AreCanonical hashes (append_events logs ps)
unfolding append_events append_event
append_events-AreCanonical hashes [] ps h canonical = canonical
append_events-AreCanonical hashes (lg ∷ logs) ps h canonical =
    append_events-AreCanonical hashes logs _ h.1 (go (parse_transfer_log lg) ps canonical)
  where
    go :
        (ev : Option TransferEvent) (qs : List BlockRecord)
        → AreCanonical hashes qs
        → AreCanonical hashes
            (elim ev [ none ↦ qs | some e ↦ append_event lg.block_number lg.block_hash e qs ])
    go none qs c = c
    go (some e) [] c = (h.0, tt)
    go (some e) (q ∷ qs) c = ground arith

-- A node at block `head` of the chain with these hashes and logs, for one call.
pub record IsNode (hashes : ℕ → ℕ) (logs : List Log) (head : ℕ) (chain : ChainReader) : Type 0 where
  pub knows_head : chain.head_number ≡ some head
  pub knows_headers : (n : ℕ) → n ≤ head → chain.header_hash n ≡ some (hashes n)
  pub filters :
      (first last : ℕ) → chain.filter_logs first (some last) ≡ some (logs_in first (suc last) logs)
  pub filters_all : chain.filter_logs 0 none ≡ some (logs_in 0 (suc head) logs)
  pub ascending : IsAscending 0 logs
  pub has_hashes : HasHashes hashes logs

-- The first block that is not finalized, and the first that was not read.
abbrev pub merged_to : Ledger → ℕ
merged_to l = if l.baseline then suc l.finalized_block else 0

abbrev pub seen_to : Ledger → ℕ
seen_to l = if l.baseline then suc l.last_seen else 0

-- The ledger has followed the chain with these hashes and logs, with no reorg.
pub record InStep (hashes : ℕ → ℕ) (logs : List Log) (l : Ledger) : Type 0 where
  pub is_merged :
      l.finalized ≡ apply_events (parse_transfer_logs (logs_in 0 (merged_to l) logs)) no_transfers
  pub is_pending : l.pending ≡ append_events (logs_in (merged_to l) (seen_to l) logs) []
  pub is_checked : l.has_checkpoint ≡ l.baseline
  pub has_hash : l.baseline ≡ true → hashes l.finalized_block ≡ l.finalized_hash
  pub is_fresh : l.baseline ≡ false → (l.last_seen ≡ 0) × (l.finalized_block ≡ 0)
  pub is_ordered : l.finalized_block ≤ l.last_seen
