-- ===== src/Base/Text.antt =====
-- Texts: `(*big.Int).SetString(s, 10)` and `strings.HasPrefix`.
use Prim.Native.Nat.{ℕ, zero, suc, ◌+◌, ◌-◌, ◌*◌}
use Prim.Native.Char.{code}
use Prim.Native.String.{String}
use mathlib.Core.Path.{◌≡◌, refl}
use mathlib.Core.Bool.{Bool, true, false, ◌&&◌}
use mathlib.Core.Option.{Option, none, some}
use mathlib.Core.Option
use stablecoin_x402_gateway.Base.Tests.{leb, nat_beq, if◌then◌else◌}
use stablecoin_x402_gateway.Base.Int.{ℤ, pos, negsuc}

unfoldable pub digits : ℕ → String → Option ℕ
digits n String.[] = some n
digits n (String.◌∷◌ c s) =
    let d = code c in
    let rest = digits (n * 10 + (d - 48)) s in if leb 48 d && leb d 57 then rest else none

-- One digit at least.
unfoldable pub decimal : String → Option ℕ
unfolding digits
decimal String.[] = none
decimal (String.◌∷◌ c s) = digits 0 (String.◌∷◌ c s)

unfoldable pub minus : ℕ → ℤ
minus zero = pos 0
minus (suc n) = negsuc n

-- In base 10 a sign may stand first, and underscores are refused.
unfoldable pub set_string : String → Option ℤ
unfolding decimal minus
set_string String.[] = none
set_string (String.◌∷◌ c s) =
    if nat_beq (code c) b'-'
    then Option.map minus (decimal s)
    else if nat_beq (code c) b'+'
    then Option.map pos (decimal s)
    else Option.map pos (decimal (String.◌∷◌ c s))

set_string_tests :
    (set_string "1500" ≡ some (pos 1500))
    × (set_string "-20" ≡ some (negsuc 19))
    × (set_string "" ≡ none)
    × (set_string "1_0" ≡ none)
unfolding set_string
set_string_tests = (refl, refl, refl, refl)

unfoldable pub has_prefix : String → String → Bool
has_prefix s String.[] = true
has_prefix String.[] (String.◌∷◌ d p) = false
has_prefix (String.◌∷◌ c s) (String.◌∷◌ d p) = nat_beq (code c) (code d) && has_prefix s p
