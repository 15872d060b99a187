-- ===== src/Reserve.antt =====
-- The reserve ledger of reserve/reserve.go: a file of signed amounts and their running total. A
-- line that JSON does not parse is a torn one.
mod Defs
pub mod Restart
pub use Defs.{Entry, ReserveLine, movement, torn_movement, Reserve, Movement}
unfoldable pub use Defs.{
  replay_amount, replay_total, open_reserve, entry_of, put_movement, append_movement, run_movements,
}
