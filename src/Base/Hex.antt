-- ===== src/Base/Hex.antt =====
-- encoding/hex: bytes as lower-case digits, decoded in either case; 32-byte values as numbers.
use Prim.Native.Nat.{ℕ, zero, suc, ◌+◌, ◌-◌, ◌*◌, ◌/◌, ◌%◌, ◌^◌, ◌<◌}
use Prim.Native.Char.{Char, code}
use Prim.Native.String.{String}
use mathlib.Core.Path.{◌≡◌, refl, ◌∙◌, ap}
use mathlib.Core.Bool.{Bool, true, false, ◌&&◌}
use mathlib.Core.Option.{Option, none, some}
use mathlib.Core.List.{List, [], ◌∷◌}
use native.Mathlib.Omega.{arith}
use stablecoin_x402_gateway.Base.Equality.{◌==◌, beq_ne, string_eq}
use stablecoin_x402_gateway.Base.Tests.{leb, nat_beq, if◌then◌else◌, length, All, ◌>>=◌}

-- The value of a digit, by its code.
unfoldable pub hex_value : ℕ → Option ℕ
hex_value c =
    if leb 48 c && leb c 57
    then some (c - 48)
    else if leb 97 c && leb c 102
    then some (c - 87)
    else if leb 65 c && leb c 70
    then some (c - 55)
    else none

-- `hex.DecodeString`
unfoldable pub decode_hex : String → Option (List ℕ)
decode_hex String.[] = some []
decode_hex (String.◌∷◌ c String.[]) = none
decode_hex (String.◌∷◌ c (String.◌∷◌ d s)) =
    let rest = decode_hex s in
    hex_value (code c) >>= λ a. hex_value (code d) >>= λ b. rest >>= λ bs. some ((a * 16 + b) ∷ bs)

unfoldable pub hex_char : ℕ → Char
hex_char d =
    if nat_beq d 0
    then "0"
    else if nat_beq d 1
    then "1"
    else if nat_beq d 2
    then "2"
    else if nat_beq d 3
    then "3"
    else if nat_beq d 4
    then "4"
    else if nat_beq d 5
    then "5"
    else if nat_beq d 6
    then "6"
    else if nat_beq d 7
    then "7"
    else if nat_beq d 8
    then "8"
    else if nat_beq d 9
    then "9"
    else if nat_beq d 10
    then "a"
    else if nat_beq d 11
    then "b"
    else if nat_beq d 12
    then "c"
    else if nat_beq d 13
    then "d"
    else if nat_beq d 14
    then "e"
    else "f"

-- `hex.EncodeToString`
unfoldable pub encode_hex : List ℕ → String
unfolding hex_char
encode_hex [] = ""
encode_hex (b ∷ bs) =
    String.◌∷◌ (hex_char (b / 16)) (String.◌∷◌ (hex_char (b % 16)) (encode_hex bs))

-- `"0x" + hex.EncodeToString(b)`
unfoldable pub prefixed_hex : List ℕ → String
prefixed_hex bs = String.◌∷◌ "0" (String.◌∷◌ "x" (encode_hex bs))

-- `strings.TrimPrefix(s, "0x")`
unfoldable pub trim_0x : String → String
trim_0x (String.◌∷◌ c (String.◌∷◌ d s)) =
    if nat_beq (code c) b'0' && nat_beq (code d) b'x' then s else String.◌∷◌ c (String.◌∷◌ d s)
trim_0x s = s

-- `copy(out[:], b)` into a 32-byte array: the bytes as one number, the first byte highest.
unfoldable pub from_bytes : ℕ → List ℕ → ℕ
from_bytes acc [] = acc
from_bytes acc (b ∷ bs) = from_bytes (acc * 256 + b) bs

unfoldable pub to_bytes : ℕ → ℕ → List ℕ → List ℕ
to_bytes zero n rest = rest
to_bytes (suc k) n rest = to_bytes k (n / 256) ((n % 256) ∷ rest)

unfoldable pub bytes32_text : ℕ → String
unfolding to_bytes
bytes32_text n = prefixed_hex (to_bytes 32 n [])

unfoldable pub bytes32_of : List ℕ → Option ℕ
unfolding from_bytes
bytes32_of b = if nat_beq (length b) 32 then some (from_bytes 0 b) else none

-- `hex.DecodeString(strings.TrimPrefix(s, "0x"))` where 32 bytes are wanted.
unfoldable pub read_hex32 : String → Option ℕ
unfolding decode_hex trim_0x bytes32_of
read_hex32 s = decode_hex (trim_0x s) >>= λ b. bytes32_of b

abbrev pub AreBytes : List ℕ → Type 0
AreBytes bs = All (λ b. b < 256) bs

hex_value-hex_char : (d : ℕ) → d < 16 → hex_value (code (hex_char d)) ≡ some d
unfolding hex_value hex_char
hex_value-hex_char zero lt = refl
hex_value-hex_char (suc zero) lt = refl
hex_value-hex_char (suc (suc zero)) lt = refl
hex_value-hex_char (suc (suc (suc zero))) lt = refl
hex_value-hex_char (suc (suc (suc (suc zero)))) lt = refl
hex_value-hex_char (suc (suc (suc (suc (suc zero))))) lt = refl
hex_value-hex_char (suc (suc (suc (suc (suc (suc zero)))))) lt = refl
hex_value-hex_char (suc (suc (suc (suc (suc (suc (suc zero))))))) lt = refl
hex_value-hex_char (suc (suc (suc (suc (suc (suc (suc (suc zero)))))))) lt = refl
hex_value-hex_char (suc (suc (suc (suc (suc (suc (suc (suc (suc zero))))))))) lt = refl
hex_value-hex_char (suc (suc (suc (suc (suc (suc (suc (suc (suc (suc zero)))))))))) lt = refl
hex_value-hex_char (suc (suc (suc (suc (suc (suc (suc (suc (suc (suc (suc zero))))))))))) lt = refl
hex_value-hex_char (suc (suc (suc (suc (suc (suc (suc (suc (suc (suc (suc (suc zero)))))))))))) lt =
    refl
hex_value-hex_char
      (suc (suc (suc (suc (suc (suc (suc (suc (suc (suc (suc (suc (suc zero))))))))))))) lt =
    refl
hex_value-hex_char
      (suc (suc (suc (suc (suc (suc (suc (suc (suc (suc (suc (suc (suc (suc zero)))))))))))))) lt =
    refl
hex_value-hex_char
      (suc (suc (suc (suc (suc (suc (suc (suc (suc (suc (suc (suc (suc (suc (suc zero)))))))))))))))
      lt =
    refl
hex_value-hex_char
      (suc
        (suc (suc (suc (suc (suc (suc (suc (suc (suc (suc (suc (suc (suc (suc (suc d))))))))))))))))
      lt =
    absurd (omega arith)

pub decode_hex-encode_hex : (bs : List ℕ) → AreBytes bs → decode_hex (encode_hex bs) ≡ some bs
unfolding decode_hex encode_hex
decode_hex-encode_hex [] h = refl
decode_hex-encode_hex (b ∷ bs) h =
    rw
      (
        hex_value-hex_char (b / 16) (omega (arith, h.0)),
        hex_value-hex_char (b % 16) (omega arith),
        decode_hex-encode_hex bs h.1,
      )
      (ap (λ x. some (x ∷ bs)) (omega arith))

trim_0x-prefixed_hex : (bs : List ℕ) → trim_0x (prefixed_hex bs) ≡ encode_hex bs
unfolding trim_0x prefixed_hex
trim_0x-prefixed_hex bs = refl

pub decode_hex-prefixed_hex :
    (bs : List ℕ) → AreBytes bs → decode_hex (trim_0x (prefixed_hex bs)) ≡ some bs
decode_hex-prefixed_hex bs h = rw (trim_0x-prefixed_hex bs) (decode_hex-encode_hex bs h)

pub to_bytes-AreBytes : (k n : ℕ) (rest : List ℕ) → AreBytes rest → AreBytes (to_bytes k n rest)
unfolding to_bytes
to_bytes-AreBytes zero n rest h = h
to_bytes-AreBytes (suc k) n rest h = to_bytes-AreBytes k (n / 256) _ (omega arith, h)

pub length-to_bytes : (k n : ℕ) (rest : List ℕ) → length (to_bytes k n rest) ≡ k + length rest
unfolding to_bytes
length-to_bytes zero n rest = omega arith
length-to_bytes (suc k) n rest = omega (arith, length-to_bytes k (n / 256) ((n % 256) ∷ rest))

-- n has k bytes.
abbrev pub Fits : ℕ → ℕ → Type 0
Fits zero n = n ≡ 0
Fits (suc k) n = Fits k (n / 256)

pub from_bytes-to_bytes :
    (k n : ℕ) (rest : List ℕ) → Fits k n → from_bytes 0 (to_bytes k n rest) ≡ from_bytes n rest
unfolding to_bytes from_bytes
from_bytes-to_bytes zero n rest h = ap (λ m. from_bytes m rest) (omega (arith, h))
from_bytes-to_bytes (suc k) n rest h =
    from_bytes-to_bytes k (n / 256) ((n % 256) ∷ rest) h ∙ ap (λ m. from_bytes m rest) (omega arith)

Fits-32 : (n : ℕ) → n < 2 ^ 256 → Fits 32 n
Fits-32 n h = omega arith

pub bytes32_of-to_bytes : (n : ℕ) → n < 2 ^ 256 → bytes32_of (to_bytes 32 n []) ≡ some n
unfolding bytes32_of from_bytes
bytes32_of-to_bytes n h =
    rw (length-to_bytes 32 n [], from_bytes-to_bytes 32 n [] (Fits-32 n h)) refl

pub read_hex32-bytes32_text : (n : ℕ) → n < 2 ^ 256 → read_hex32 (bytes32_text n) ≡ some n
unfolding read_hex32 bytes32_text
read_hex32-bytes32_text n h =
    rw (decode_hex-prefixed_hex (to_bytes 32 n []) (to_bytes-AreBytes 32 n [] tt))
      (bytes32_of-to_bytes n h)

is_empty_text : String → Bool
is_empty_text String.[] = true
is_empty_text (String.◌∷◌ c s) = false

false-true : false ≡ true → ⊥
false-true h = ground arith

pub bytes32_text-nonempty : (n : ℕ) → (bytes32_text n == "") ≡ false
unfolding bytes32_text prefixed_hex is_empty_text
bytes32_text-nonempty n = beq_ne (bytes32_text n) "" (λ same. false-true (ap is_empty_text same))
