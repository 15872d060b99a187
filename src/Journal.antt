-- ===== src/Journal.antt =====
-- The settlement journal of x402/journal.go, and the outbox of x402/outbox.go that publishes it.
-- A file is its lines and the unterminated line at its end, if a write was cut short. A line that
-- JSON does not parse is a torn line.
mod Records
mod File
mod Outbox
pub mod Recovery
pub mod Index
pub mod Crash
pub mod Delivery
pub use Records.{JournalEntry, DecisionRecord, RevocationRecord, ReceiptJson, SignedReceiptJson}
pub use File.{
  Line, entry_line, marker_line, torn_line, JournalFile, Journal, WriteOutcome, written,
  nothing_written, cut_short, not_synced,
}
unfoldable pub use File.{
  new_journal, record_entry, replay_line, replay, open_journal, write_line, after_entry,
  after_marker, append, mark_published, select_unpublished, is_published, unpublished,
}
unfoldable pub use Outbox.{interval, drain, drain_entries}
