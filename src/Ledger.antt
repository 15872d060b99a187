-- ===== src/Ledger.antt =====
-- The off-chain ledger of ledger/ledger.go and ledger/incremental.go. Addresses, hashes and
-- block numbers are numbers; the chain that a call reads is a parameter.
mod Totals
mod Incremental
mod Reconcile
pub mod Folds
pub mod Ranges
pub mod Calls
pub mod Rewind
pub mod Follows
pub mod Conservation
pub mod Laws
pub mod Reorgs
pub mod Reports
pub use Totals.{TransferEvent, Log, Snapshot}
unfoldable pub use Totals.{
  parse_transfer_log, parse_transfer_logs, add_balance, balance_in, take_from, give_to,
  apply_transfer, apply_event, apply_events, no_transfers, supply, balance_of,
}
pub use Incremental.{
  BlockRecord, Ledger, LedgerError, ChainReader, Rewound, no_chain_reader, head_failed,
  header_failed, filter_failed, deep_reorg, total_supply_failed, balance_failed, rewind_failed,
  at_canonical, window_dropped,
}
unfoldable pub use Incremental.{
  new_chain, snapshot, overlay, rewind_reorg, rewind_pending, check_checkpoint, trusted_head,
  append_event, append_events, append_range, merge_finalized, merge_pending, checkpoint,
  finalized_target, sync, sync_incremental, next_block, after_rewind, sync_from, read_blocks,
}
pub use Reconcile.{
  Report, Mismatch, TokenReader, Reconciled, reported, not_reported, ledger_supply_differs,
  sum_of_balances_differs, balance_differs,
}
unfoldable pub use Reconcile.{
  reconcile, report_of, account_mismatches, total_mismatches, sum_balances, sort_accounts,
  insert_account, compare_totals, after_sync,
}
