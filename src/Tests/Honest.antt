-- ===== src/Tests/Honest.antt =====
-- A stand-in for go-ethereum with its hex texts of addresses and hashes, in lower case and cropped to
-- 20 and 32 bytes, but with sums for hashes; a wallet and an agent.
use stablecoin_x402_gateway.Base.{
  String, Bool, false, nat_beq, nat_beq_iff, length, ℕ, zero, suc, ◌+◌, ◌%◌, ◌^◌, ◌<◌, ◌≡◌, ◌≢◌,
  refl, ap, ◌∙◌, subst, true, Option, none, some, some-eq, List, [], ◌∷◌, string_eq, ◌==◌,
  if◌then◌else◌, arith,
}
use stablecoin_x402_gateway.Base.Int.{pos}
use stablecoin_x402_gateway.Base.Hex.{
  decode_hex, trim_0x, decode_hex-prefixed_hex, from_bytes, to_bytes, prefixed_hex, bytes32_text,
  Fits, from_bytes-to_bytes, length-to_bytes, to_bytes-AreBytes,
}
use stablecoin_x402_gateway.Eth.{Eth}
use stablecoin_x402_gateway.Wallet.{Wallet}
use stablecoin_x402_gateway.Wallet.Signing.{Recovers, IsSignature}
use stablecoin_x402_gateway.Agent.{Agent}
use stablecoin_x402_gateway.Agent.Accepted.{ReadsHex}
use stablecoin_x402_gateway.Gateway.Replay.{ReadsBack}
use stablecoin_x402_gateway.Receipt.Wire.{ReadsTexts}
use stablecoin_x402_gateway.Tests.Sample.{bytes}

abbrev bytes_of : Option (List ℕ) → List ℕ
bytes_of none = []
bytes_of (some bs) = bs

-- The last bytes of a hex text, as a number.
abbrev read_hex : String → ℕ
read_hex text = from_bytes 0 (bytes_of (decode_hex (trim_0x text)))

abbrev address_text : ℕ → String
address_text a = prefixed_hex (to_bytes 20 a [])

abbrev is_long : Option (List ℕ) → Bool
is_long none = false
is_long (some bs) = nat_beq (length bs) 20

abbrev total : List ℕ → ℕ
total [] = 0
total (w ∷ ws) = w + total ws

abbrev pub honest : Eth
honest = record {
  hex_to_address = λ s. read_hex s % 2 ^ 160;
  is_hex_address = λ s. is_long (decode_hex (trim_0x s));
  address_hex = address_text;
  hash_hex = bytes32_text;
  hex_to_hash = λ s. read_hex s % 2 ^ 256;
  from_hex = λ s. bytes_of (decode_hex (trim_0x s));
  keccak_words = λ ws. total ws % 2 ^ 256;
  keccak_text = λ s. if s == "http://shop/report" then 100 else 200;
  keccak_prefixed = λ d h. d + h;
  sig_to_address = λ d sig. some 2;
}

abbrev pub honest_wallet : Wallet
honest_wallet = record { address = 2; sign = λ d. some (bytes 64 1) }

abbrev pub honest_agent : Agent
honest_agent = record {
  wallet = honest_wallet;
  domain_separator = 77;
  max_amount = some (pos 100);
  grant = none;
  mandate = none;
  confirmation = none;
}

read_hex-to_bytes : (k n : ℕ) → Fits k n → read_hex (prefixed_hex (to_bytes k n [])) ≡ n
unfolding from_bytes
read_hex-to_bytes k n fits =
    ap (λ o. from_bytes 0 (bytes_of o))
      (decode_hex-prefixed_hex (to_bytes k n []) (to_bytes-AreBytes k n [] tt))
    ∙ from_bytes-to_bytes k n [] fits

address-address_text : (a : ℕ) → a < 2 ^ 160 → read_hex (address_text a) % 2 ^ 160 ≡ a
address-address_text a small =
    ap (λ n. n % 2 ^ 160) (read_hex-to_bytes 20 a (omega arith)) ∙ omega arith

is_long-address_text : (a : ℕ) → is_long (decode_hex (trim_0x (address_text a))) ≡ true
is_long-address_text a =
    ap is_long (decode_hex-prefixed_hex (to_bytes 20 a []) (to_bytes-AreBytes 20 a [] tt))
    ∙ (nat_beq_iff _ 20).1 (length-to_bytes 20 a [])

hash-bytes32_text : (h : ℕ) → h < 2 ^ 256 → read_hex (bytes32_text h) % 2 ^ 256 ≡ h
unfolding bytes32_text
hash-bytes32_text h small =
    ap (λ n. n % 2 ^ 256) (read_hex-to_bytes 32 h (omega arith)) ∙ omega arith

pub honest-ReadsHex : ReadsHex honest
honest-ReadsHex = record {
  has_20_bytes = λ text. omega arith;
  is_address = λ a small. is_long-address_text a;
  address = address-address_text;
  bytes = λ bs are. ap bytes_of (decode_hex-prefixed_hex bs are);
  has_32_bytes = λ ws. omega arith;
}

pub honest-ReadsBack : ReadsBack honest
honest-ReadsBack = record { address = address-address_text; hash = hash-bytes32_text }

zeros : ℕ → List ℕ
zeros zero = []
zeros (suc n) = 0 ∷ zeros n

sample-IsSignature : IsSignature (bytes 64 1)
unfolding zeros
sample-IsSignature = record {
  parts = zeros 64;
  recovery = 1;
  is_joined = refl;
  has_length = refl;
  has_bytes = ground arith;
  is_recovery = omega arith;
}

pub honest-Recovers : Recovers honest honest_wallet
honest-Recovers = record {
  is_signature = λ d sig made. subst IsSignature (some-eq made) sample-IsSignature;
  recovers = λ d sig made. refl;
}

is_text : String → Bool
is_text String.[] = false
is_text (String.◌∷◌ c s) = true

true-false : true ≡ false → ⊥
true-false h = ground arith

prefixed_hex-nonempty : (bs : List ℕ) → prefixed_hex bs ≢ ""
unfolding prefixed_hex is_text
prefixed_hex-nonempty bs same = true-false (ap is_text same)

hash_text-nonempty : (h : ℕ) → bytes32_text h ≢ ""
unfolding bytes32_text
hash_text-nonempty h = prefixed_hex-nonempty (to_bytes 32 h [])

pub honest-ReadsTexts : ReadsTexts honest
honest-ReadsTexts = record {
  address = address-address_text;
  address_text = λ a. prefixed_hex-nonempty (to_bytes 20 a []);
  hash = hash-bytes32_text;
  hash_text = hash_text-nonempty;
}
