-- ===== src/Base/Float.antt =====
-- `float64` as far as the program compares it: a finite value is an integer multiple of 2 ^ -1074.
use mathlib.Core.Bool.{Bool, true, false}
use stablecoin_x402_gateway.Base.Int.{ℤ, ltb_ℤ}

pub data Float64 : Type 0 where
  nan neg_infinity pos_infinity : Float64
  finite : ℤ → Float64

-- `a > b`; a comparison with NaN is false.
unfoldable pub float_gt : Float64 → Float64 → Bool
float_gt nan b = false
float_gt a nan = false
float_gt neg_infinity b = false
float_gt pos_infinity pos_infinity = false
float_gt pos_infinity b = true
float_gt (finite a) neg_infinity = true
float_gt (finite a) pos_infinity = false
float_gt (finite a) (finite b) = ltb_ℤ b a
