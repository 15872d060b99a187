-- ===== src/Accounts/Window.antt =====
-- Windows: `windowDur`, `maxWindow`, `now.Add(-window)` and `s.at.Before(cutoff)`.
use stablecoin_x402_gateway.Base.{
  ℕ, ◌+◌, ◌-◌, ◌*◌, ◌^◌, ◌≤◌, ◌<◌, ◌≡◌, Bool, Option, none, some, arith, if◌then◌else◌,
}
use stablecoin_x402_gateway.Base.Int.{
  ℤ, pos, negsuc, ◌+ℤ◌, ◌-ℤ◌, ◌≤ℤ◌, neg, wrap64, mul64, neg64, leb_ℤ,
}

pub record Spend : Type 0 where
  pub at : ℕ
  pub amount : ℤ

-- `time.Duration(1) << 62`
abbrev pub all_time : ℤ
all_time = pos (2 ^ 62)

-- `time.Duration(seconds.Int64()) * time.Second`
unfoldable pub window_dur : Option ℤ → ℤ
unfolding wrap64 mul64
window_dur none = all_time
window_dur (some seconds) =
    if leb_ℤ seconds (pos 0) then all_time else mul64 (wrap64 seconds) 1_000_000_000

unfoldable pub cutoff : ℕ → ℤ → ℤ
unfolding neg64
cutoff now window = pos now +ℤ neg64 window

unfoldable pub is_recent : ℤ → Spend → Bool
is_recent from s = leb_ℤ from (pos s.at)

-- Up to 9223372036 seconds the window is what the mandate says.
pub window_dur_exact :
    (s : ℕ) → 0 < s → s ≤ 9223372036 → window_dur (some (pos s)) ≡ pos (s * 1_000_000_000)
unfolding window_dur
window_dur_exact s h k = ground arith

pub window_dur_absent : (s : ℕ) → window_dur (some (neg (pos s))) ≡ all_time
unfolding window_dur neg
window_dur_absent s = ground arith

-- From 9223372037 to 18446744073 seconds the product wraps below zero.
pub window_dur_overflow :
    (s : ℕ)
    → 9223372037 ≤ s
    → s ≤ 18446744073
    → window_dur (some (pos s)) +ℤ pos (2 ^ 64) ≡ pos (s * 1_000_000_000)
unfolding window_dur ◌+ℤ◌
window_dur_overflow s h k = ground arith

wrap64_le : (a : ℤ) → wrap64 a ≤ℤ pos (2 ^ 63 - 1)
unfolding wrap64
wrap64_le (pos a) = ground arith
wrap64_le (negsuc a) = ground arith

mul64_le : (a : ℤ) (k : ℕ) → mul64 a k ≤ℤ pos (2 ^ 63 - 1)
unfolding mul64
mul64_le (pos a) k = wrap64_le (pos (a * k))
mul64_le (negsuc a) k = wrap64_le (neg (pos ((a + 1) * k)))

pub window_dur_le : (s : Option ℤ) → window_dur s ≤ℤ pos (2 ^ 63 - 1)
unfolding window_dur
window_dur_le none = omega arith
window_dur_le (some s) = ground (arith, mul64_le (wrap64 s) 1_000_000_000)

-- A window that does not wrap is subtracted exactly.
pub cutoff_exact :
    (now : ℕ) (w : ℤ) → pos 0 ≤ℤ w → w ≤ℤ pos (2 ^ 63 - 1) → cutoff now w ≡ pos now -ℤ w
unfolding cutoff ◌+ℤ◌ ◌-ℤ◌
cutoff_exact now (pos w) h k = ground arith
cutoff_exact now (negsuc w) h k = absurd (omega arith)
