-- ===== src/Accounts.antt =====
-- The accounting of x402/policy_mandate.go: committed spends in sliding windows, and the
-- reservations of payments in flight. Times are nanoseconds since 1970, durations are `int64`.
mod Window
mod Defs
pub mod Sums
pub mod Budget
pub mod Each
pub mod Trace
pub mod Laws
pub mod Collision
pub use Window.{Spend}
unfoldable pub use Window.{all_time, window_dur, cutoff, is_recent}
pub use Window.{
  window_dur_exact, window_dur_absent, window_dur_overflow, cutoff_exact, window_dur_le,
}
pub use Defs.{Account, Accounts}
unfoldable pub use Defs.{
  committed_amount, committed_count, reserved_amount, sum_since, count_since, keep_since, prune,
  max_window, over_budget, over_rate, account_of, reserve, commit, release, restore, new_account,
  reserve_account, commit_account, release_account, sum_reserved,
}
