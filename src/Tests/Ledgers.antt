-- ===== src/Tests/Ledgers.antt =====
-- The ledger on concrete chains.
use stablecoin_x402_gateway.Base.{
  ℕ, suc, ◌+◌, ◌≤◌, ◌≡◌, refl, if◌then◌else◌, nat_beq, leb, Option, none, some, List, [], ◌∷◌,
  arith, nat_eq,
}
use stablecoin_x402_gateway.Base.Int.{ℤ, pos, ◌+ℤ◌, ◌-ℤ◌, neg}
use stablecoin_x402_gateway.Base.Dict.{lookup, erase, insert}
use stablecoin_x402_gateway.Ledger.{
  Log, Ledger, ChainReader, TokenReader, Report, new_chain, parse_transfer_log, parse_transfer_logs,
  add_balance, balance_in, take_from, give_to, apply_transfer, apply_event, apply_events, supply,
  balance_of, snapshot, overlay, rewind_reorg, after_rewind, rewind_pending, check_checkpoint,
  trusted_head, append_event, append_events, append_range, merge_finalized, merge_pending,
  checkpoint, finalized_target, sync, sync_incremental, next_block, sync_from, read_blocks,
  reconcile, after_sync, report_of, account_mismatches, total_mismatches, sum_balances,
  sort_accounts, insert_account, compare_totals,
}
use stablecoin_x402_gateway.Ledger.Conservation.{IsConserved, no_transfers-IsConserved}
use stablecoin_x402_gateway.Ledger.Ranges.{IsNode, logs_in}
use stablecoin_x402_gateway.Ledger.Follows.{started, synced, sync_incremental-sync}
use stablecoin_x402_gateway.Ledger.Laws.{sync_incremental-IsConserved}
use stablecoin_x402_gateway.Ledger.Reorgs.{
  TopIsCanonical, rewind_reorg-TopIsCanonical, sync_incremental-canonical_top,
}
use stablecoin_x402_gateway.Ledger.Reports.{reconcile_ok}

-- The definitions that the runs compute with.
unfoldable ledger_code : Unit {0}
unfolding parse_transfer_log parse_transfer_logs add_balance balance_in take_from give_to
    apply_transfer apply_event apply_events supply balance_of snapshot overlay rewind_reorg
    after_rewind rewind_pending check_checkpoint trusted_head append_event append_events
    append_range merge_finalized merge_pending checkpoint finalized_target sync sync_incremental
    next_block sync_from read_blocks reconcile after_sync report_of account_mismatches
    total_mismatches sum_balances sort_accounts insert_account compare_totals ◌+ℤ◌ ◌-ℤ◌ neg lookup
    erase insert
ledger_code = tt

abbrev transfer : ℕ → ℕ → ℕ → ℕ → Log
transfer block sender receiver amount = record {
  topics = 7 ∷ sender ∷ receiver ∷ [];
  data_value = amount;
  block_number = block;
  block_hash = block + 1000;
}

abbrev hash_of : ℕ → ℕ
hash_of n = n + 1000

-- 100 are minted to account 5, 30 of them go on to account 6, 10 of these are burned.
abbrev transfers : List Log
transfers = transfer 1 0 5 100 ∷ transfer 8 5 6 30 ∷ transfer 25 6 0 10 ∷ []

abbrev found : List Log → ℕ → ℕ → Option ℕ → Option (List Log)
found logs head first (some last) = some (logs_in first (suc last) logs)
found logs head first none = some (logs_in first (suc head) logs)

abbrev node : List Log → ℕ → ChainReader
node logs head = record {
  head_number = some head;
  header_hash = λ n. some (hash_of n);
  filter_logs = found logs head;
}

node-IsNode : (head : ℕ) → IsNode hash_of transfers head (node transfers head)
node-IsNode head = record {
  knows_head = refl;
  knows_headers = λ n le. refl;
  filters = λ first last. refl;
  filters_all = refl;
  ascending = (omega arith, (omega arith, (omega arith, tt)));
  has_hashes = (refl, (refl, (refl, tt)));
}

abbrev at_10 : Ledger
at_10 = (sync_incremental (some (node transfers 10)) (new_chain 12)).1

at_10_le : at_10.last_seen ≤ 30
unfolding ledger_code
at_10_le = omega arith

sync_incremental-sync_example :
    ((sync_incremental (some (node transfers 30)) at_10).0 ≡ none)
    × (snapshot (sync_incremental (some (node transfers 30)) at_10).1
        ≡ (sync (node transfers 30) at_10).1.finalized)
sync_incremental-sync_example =
    sync_incremental-sync hash_of transfers {l = at_10} {head = 30} {chain = node transfers 30}
      (synced {head = 10} {chain = node transfers 10} {l = new_chain 12} (started 12)
        (node-IsNode 10) (omega arith) (omega arith))
      (node-IsNode 30) at_10_le (omega arith)

abbrev at_30 : Ledger
at_30 = (sync_incremental (some (node transfers 30)) at_10).1

-- The run of the example: 90 are left, 20 of them with account 6.
sync_incremental-at_30 :
    (supply (snapshot at_30) ≡ pos 90)
    × (balance_of 6 (snapshot at_30) ≡ pos 20)
    × (at_30.finalized_block ≡ 18)
unfolding ledger_code
sync_incremental-at_30 = (refl, refl, refl)

sync_incremental-IsConserved_example : IsConserved (snapshot at_10)
sync_incremental-IsConserved_example =
    sync_incremental-IsConserved (some (node transfers 10)) (new_chain 12) no_transfers-IsConserved

-- Blocks 25 to 30 are replaced, and block 25 is not the one the ledger knows.
abbrev reorged : ChainReader
reorged = record (node transfers 30) {
  header_hash = λ n. some (if leb 25 n then n + 2000 else hash_of n);
}

rewind_reorg-TopIsCanonical_example : TopIsCanonical reorged (rewind_reorg reorged at_30).1
unfolding ledger_code
rewind_reorg-TopIsCanonical_example = rewind_reorg-TopIsCanonical reorged at_30 refl

-- The rewind of the example drops block 25, and goes back to the finality checkpoint.
rewind_reorg-at_30 : (rewind_reorg reorged at_30).1.last_seen ≡ 18
unfolding ledger_code
rewind_reorg-at_30 = refl

-- Block 9 is replaced while block 8 stays: its new log is never read.
abbrev replaced : List Log
replaced = transfer 1 0 5 100 ∷ transfer 8 5 6 30 ∷ transfer 9 0 7 1000 ∷ []

sync_incremental-canonical_top_example :
    sync_incremental (some (record (node transfers 12) { filter_logs = found replaced 12 })) at_10
    ≡ sync_incremental (some (node transfers 12)) at_10
unfolding ledger_code
sync_incremental-canonical_top_example =
    sync_incremental-canonical_top (node transfers 12) (found replaced 12) 12 at_10
      (record {
        number = 8;
        hash = 1008;
        events = record { from_address = 5; to_address = 6; value = 30 } ∷ [];
      })
      (record {
        number = 1;
        hash = 1001;
        events = record { from_address = 0; to_address = 5; value = 100 } ∷ [];
      }
        ∷ [])
      refl refl refl refl

-- The chain's supply in the example is 1100, the ledger's 100.
sync_incremental-misses_block_9 :
    (supply (snapshot (sync_incremental (some (node replaced 12)) at_10).1) ≡ pos 100)
    × (supply (sync (node replaced 12) at_10).1.finalized ≡ pos 1100)
unfolding ledger_code
sync_incremental-misses_block_9 = (refl, refl)

-- The header read after a merge fails: the next sync goes back to block 0 and counts the merged
-- transfers once more.
abbrev unread_header : ChainReader
unread_header = record (node transfers 30) {
  header_hash = λ n. if nat_beq n 18 then none else some (hash_of n);
}

abbrev short_chain : List Log
short_chain = transfer 1 0 5 100 ∷ []

abbrev after_failure : Ledger
after_failure =
    (sync_incremental (some (record unread_header { filter_logs = found short_chain 30 }))
      (new_chain 12)).1

sync_incremental-counts_twice :
    supply (snapshot (sync_incremental (some (node short_chain 31)) after_failure).1) ≡ pos 200
unfolding ledger_code
sync_incremental-counts_twice = refl

abbrev token : TokenReader
token = record {
  total_supply = some (pos 90);
  on_chain_balance = λ a. if nat_beq a 5 then some (pos 70) else some (pos 20);
}

abbrev fine : Report
fine = record {
  on_chain_supply = pos 90;
  ledger_supply = pos 90;
  sum_of_balances = pos 90;
  minted = pos 100;
  burned = pos 10;
  accounts = 2;
  events = 3;
  mismatches = [];
}

reconcile_ok_example :
    (token.total_supply ≡ some fine.ledger_supply)
    × ((a : ℕ) (b : ℤ)
        → lookup a (reconcile (node transfers 30) token (new_chain 12)).1.finalized.balances
          ≡ some b
        → token.on_chain_balance a ≡ some b)
unfolding ledger_code
reconcile_ok_example = reconcile_ok (node transfers 30) token (new_chain 12) fine refl refl
