-- ===== src/Base/Decimal.antt =====
-- `(*big.Int).String`: an integer's decimal text, which `SetString` reads back.
use Prim.Native.Nat.{ℕ, zero, suc, ◌+◌, ◌-◌, ◌*◌, ◌/◌, ◌%◌, ◌<◌}
use Prim.Native.Char.{Char, code}
use Prim.Native.String.{String}
use mathlib.Core.Path.{◌≡◌, refl, ◌∙◌, ap}
use mathlib.Core.Logic.{inl, inr}
use mathlib.Core.Bool.{Bool, true, false, ◌&&◌}
use mathlib.Core.Option.{Option, none, some}
use mathlib.Core.Option
use native.Mathlib.Omega.{arith}
use stablecoin_x402_gateway.Base.Tests.{ltb, leb, nat_beq, if◌then◌else◌, Bool-cases}
use stablecoin_x402_gateway.Base.Int.{ℤ, pos, negsuc}
use stablecoin_x402_gateway.Base.Text.{set_string, digits, decimal, minus}

unfoldable pub digit_char : ℕ → Char
digit_char d =
    if nat_beq d 0
    then "0"
    else if nat_beq d 1
    then "1"
    else if nat_beq d 2
    then "2"
    else if nat_beq d 3
    then "3"
    else if nat_beq d 4
    then "4"
    else if nat_beq d 5
    then "5"
    else if nat_beq d 6
    then "6"
    else if nat_beq d 7
    then "7"
    else if nat_beq d 8
    then "8"
    else "9"

-- The digits of n before `rest`; n + 1 steps are enough.
unfoldable pub digits_text : ℕ → ℕ → String → String
digits_text zero n rest = rest
digits_text (suc k) n rest =
    let text : String = String.◌∷◌ (digit_char (n % 10)) rest in
    let more = digits_text k (n / 10) text in if ltb n 10 then text else more

unfoldable pub integer_text : ℤ → String
unfolding digits_text
integer_text (pos n) = digits_text (suc n) n ""
integer_text (negsuc n) = String.◌∷◌ "-" (digits_text (suc (suc n)) (suc n) "")

code-digit_char : (d : ℕ) → d < 10 → code (digit_char d) ≡ 48 + d
unfolding digit_char
code-digit_char zero lt = refl
code-digit_char (suc zero) lt = refl
code-digit_char (suc (suc zero)) lt = refl
code-digit_char (suc (suc (suc zero))) lt = refl
code-digit_char (suc (suc (suc (suc zero)))) lt = refl
code-digit_char (suc (suc (suc (suc (suc zero))))) lt = refl
code-digit_char (suc (suc (suc (suc (suc (suc zero)))))) lt = refl
code-digit_char (suc (suc (suc (suc (suc (suc (suc zero))))))) lt = refl
code-digit_char (suc (suc (suc (suc (suc (suc (suc (suc zero)))))))) lt = refl
code-digit_char (suc (suc (suc (suc (suc (suc (suc (suc (suc zero))))))))) lt = refl
code-digit_char (suc (suc (suc (suc (suc (suc (suc (suc (suc (suc d)))))))))) lt =
    absurd (omega arith)

is_digit : (d : ℕ) → d < 10 → leb 48 (48 + d) && leb (48 + d) 57 ≡ true
is_digit d lt = ground arith

digit_value : (d : ℕ) → 48 + d - 48 ≡ d
digit_value d = omega arith

digits-digit_char :
    (n d : ℕ) (rest : String)
    → d < 10
    → digits n (String.◌∷◌ (digit_char d) rest) ≡ digits (n * 10 + d) rest
unfolding digits
digits-digit_char n d rest lt = rw (code-digit_char d lt, is_digit d lt, digit_value d) refl

digits-digits_text :
    (k n : ℕ) (rest : String) → n < k → digits 0 (digits_text k n rest) ≡ digits n rest
unfolding digits_text
digits-digits_text zero n rest lt = ground arith
digits-digits_text (suc k) n rest lt = elim (Bool-cases (ltb n 10)) [
  | inl small ↦
      rw small
        (digits-digit_char 0 (n % 10) rest (omega arith) ∙ ap (λ m. digits m rest) (ground arith))
  | inr large ↦ rw large (
      digits-digits_text k (n / 10) (String.◌∷◌ (digit_char (n % 10)) rest) (ground arith)
      ∙ digits-digit_char (n / 10) (n % 10) rest (omega arith)
      ∙ ap (λ m. digits m rest) (omega arith))
]

abbrev starts_with_digit : String → Bool
starts_with_digit String.[] = false
starts_with_digit (String.◌∷◌ c s) = leb 48 (code c) && leb (code c) 57

digits_text_starts :
    (k n : ℕ) (rest : String) → n < k → starts_with_digit (digits_text k n rest) ≡ true
unfolding digits_text
digits_text_starts zero n rest lt = absurd (omega arith)
digits_text_starts (suc k) n rest lt = elim (Bool-cases (ltb n 10)) [
  | inl small ↦ rw (small, code-digit_char (n % 10) (omega arith)) (is_digit (n % 10) (omega arith))
  | inr large ↦ rw large (digits_text_starts k (n / 10) _ (ground arith))
]

decimal-digits : (t : String) → starts_with_digit t ≡ true → decimal t ≡ digits 0 t
unfolding decimal
decimal-digits String.[] h = ground arith
decimal-digits (String.◌∷◌ c s) h = refl

set_string-digits :
    (t : String) → starts_with_digit t ≡ true → set_string t ≡ Option.map pos (digits 0 t)
unfolding set_string decimal
set_string-digits String.[] h = ground arith
set_string-digits (String.◌∷◌ c s) h = rw (no_minus (code c) h, no_plus (code c) h) refl
  where
    no_minus : (n : ℕ) → leb 48 n && leb n 57 ≡ true → nat_beq n b'-' ≡ false
    no_minus n h = ground arith

    no_plus : (n : ℕ) → leb 48 n && leb n 57 ≡ true → nat_beq n b'+' ≡ false
    no_plus n h = ground arith

set_string-minus : (t : String) → set_string (String.◌∷◌ "-" t) ≡ Option.map minus (decimal t)
unfolding set_string
set_string-minus t = refl

pub set_string-integer_text : (a : ℤ) → set_string (integer_text a) ≡ some a
unfolding integer_text digits minus
set_string-integer_text (pos n) =
    set_string-digits (digits_text (suc n) n "") (digits_text_starts (suc n) n "" (omega arith))
    ∙ ap (Option.map pos) (digits-digits_text (suc n) n "" (omega arith))
set_string-integer_text (negsuc n) =
    let t = digits_text (suc (suc n)) (suc n) "" in
    set_string-minus t
    ∙ ap (Option.map minus) (
        decimal-digits t (digits_text_starts (suc (suc n)) (suc n) "" (omega arith))
        ∙ digits-digits_text (suc (suc n)) (suc n) "" (omega arith))
