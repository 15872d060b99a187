-- ===== src/Base/Int.antt =====
-- Signed integers over the native numbers: `*big.Int` values, and `int64` with its wrap-around.
use Prim.Native.Nat.{ℕ, suc, ◌+◌, ◌-◌, ◌*◌, ◌%◌, ◌^◌, ◌≤◌, ◌<◌}
use mathlib.Core.Path.{◌≡◌}
use mathlib.Core.Bool.{Bool}
use native.Mathlib.Omega.{arith}
use stablecoin_x402_gateway.Base.Tests.{ltb, leb, nat_beq, if◌then◌else◌}

-- `negsuc n` is -(n + 1).
pub data ℤ : Type 0 where
  pos : ℕ → ℤ
  negsuc : ℕ → ℤ

abbrev pub pos_part : ℤ → ℕ
pos_part (pos n) = n
pos_part (negsuc n) = 0

abbrev pub neg_part : ℤ → ℕ
neg_part (pos n) = 0
neg_part (negsuc n) = suc n

-- a - b, as an integer.
abbrev sub_ℕ : ℕ → ℕ → ℤ
sub_ℕ a b = if leb b a then pos (a - b) else negsuc (b - a - 1)

infixl 65 ◌+ℤ◌ ◌-ℤ◌
infix 50 ◌≤ℤ◌
unfoldable pub ◌+ℤ◌ : ℤ → ℤ → ℤ
a +ℤ b = sub_ℕ (pos_part a + pos_part b) (neg_part a + neg_part b)

unfoldable pub ◌-ℤ◌ : ℤ → ℤ → ℤ
a -ℤ b = sub_ℕ (pos_part a + neg_part b) (neg_part a + pos_part b)

unfoldable pub neg : ℤ → ℤ
neg a = sub_ℕ (neg_part a) (pos_part a)

-- `(*big.Int).Bytes` reads the absolute value.
unfoldable pub abs : ℤ → ℕ
abs a = pos_part a + neg_part a

abbrev pub ◌≤ℤ◌ : ℤ → ℤ → Type 0
a ≤ℤ b = pos_part a + neg_part b ≤ pos_part b + neg_part a

-- `a.Cmp(b) < 0`, `a.Cmp(b) <= 0` and `a.Cmp(b) == 0`.
abbrev pub ltb_ℤ : ℤ → ℤ → Bool
ltb_ℤ a b = ltb (pos_part a + neg_part b) (pos_part b + neg_part a)

abbrev pub leb_ℤ : ℤ → ℤ → Bool
leb_ℤ a b = leb (pos_part a + neg_part b) (pos_part b + neg_part a)

abbrev pub eqb_ℤ : ℤ → ℤ → Bool
eqb_ℤ a b = nat_beq (pos_part a + neg_part b) (pos_part b + neg_part a)

-- `a.Sign() > 0`
abbrev pub is_positive : ℤ → Bool
is_positive a = ltb_ℤ (pos 0) a

pub +ℤ_parts :
    (a b : ℤ)
    → pos_part (a +ℤ b) + neg_part a + neg_part b ≡ neg_part (a +ℤ b) + pos_part a + pos_part b
unfolding ◌+ℤ◌
+ℤ_parts a b = ground arith

pub -ℤ_parts :
    (a b : ℤ)
    → pos_part (a -ℤ b) + neg_part a + pos_part b ≡ neg_part (a -ℤ b) + pos_part a + neg_part b
unfolding ◌-ℤ◌
-ℤ_parts a b = ground arith

pub neg_parts : (a : ℤ) → pos_part (neg a) + pos_part a ≡ neg_part (neg a) + neg_part a
unfolding neg
neg_parts a = ground arith

pub eq_of_parts : (a b : ℤ) → pos_part a + neg_part b ≡ pos_part b + neg_part a → a ≡ b
eq_of_parts a b h = ground arith

pub ruleset int_laws = (arith, +ℤ_parts, -ℤ_parts, neg_parts, eq_of_parts)

pub abs-neg : (a : ℤ) → abs (neg a) ≡ abs a
unfolding abs neg
abs-neg a = ground arith

-- The low 64 bits, read as two's complement: `int64` arithmetic and `(*big.Int).Int64`.
residue64 : ℤ → ℕ
residue64 (pos n) = n % 2 ^ 64
residue64 (negsuc n) = 2 ^ 64 - 1 - n % 2 ^ 64

as_signed64 : ℕ → ℤ
as_signed64 n = if ltb n (2 ^ 63) then pos n else negsuc (2 ^ 64 - 1 - n)

unfoldable pub wrap64 : ℤ → ℤ
unfolding residue64 as_signed64
wrap64 a = as_signed64 (residue64 a)

-- `int64` negation and multiplication by a constant, with their wrap-around.
unfoldable pub neg64 : ℤ → ℤ
unfolding wrap64 neg
neg64 a = wrap64 (neg a)

unfoldable pub mul64 : ℤ → ℕ → ℤ
unfolding wrap64
mul64 (pos a) k = wrap64 (pos (a * k))
mul64 (negsuc a) k = wrap64 (neg (pos ((a + 1) * k)))

pub wrap64_small : (n : ℕ) → n < 2 ^ 63 → wrap64 (pos n) ≡ pos n
unfolding wrap64
wrap64_small n h = ground arith

pub neg64_small : (n : ℕ) → n < 2 ^ 63 → neg64 (pos n) ≡ neg (pos n)
unfolding neg64
neg64_small n h = ground arith
