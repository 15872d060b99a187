-- ===== src/Facilitator.antt =====
-- The facilitator of x402/facilitator.go and its local form, x402/facilitator_local.go. What the
-- token contract answers is a parameter, and so is whether a transaction is mined. A reason keeps
-- its fixed text: the values that it formats are left out.
use stablecoin_x402_gateway.Base.{
  ℕ, ◌+◌, String, Bool, true, false, not, ◌&&◌, ◌||◌, Option, none, some, List, length, nat_beq,
  string_eq, ◌==◌, if◌then◌else◌, ◌>>=◌,
}
use stablecoin_x402_gateway.Base.Int.{ℤ, pos, ltb_ℤ, leb_ℤ, eqb_ℤ}
use stablecoin_x402_gateway.Base.Dict.{lookup}
use stablecoin_x402_gateway.Base.Text.{set_string}
use stablecoin_x402_gateway.Base.Hex.{decode_hex, trim_0x, read_hex32}
use stablecoin_x402_gateway.Eth.{Eth}
use stablecoin_x402_gateway.Wire.{
  AuthorizationJson, ExactPayload, PaymentPayload, PaymentRequirements, VerifyResult,
}
use stablecoin_x402_gateway.Wallet.{
  Authorization, SplitParts, recover_signer, recover_receive_signer, split_signature,
}
pub mod Verdict
pub mod Service
pub mod Remote
pub mod Faithful

-- `SettlementResponse`, as far as a facilitator fills it.
pub record SettleResult : Type 0 where
  pub success : Bool
  pub error_reason : String
  pub transaction : String
  pub network : String
  pub payer : String

-- An answer: `none` is the error return, `some none` a nil result.
abbrev pub Answer {ℓ} : Type ℓ → Type ℓ
Answer A = Option (Option A)

-- The token contract's view functions.
pub record TokenReads : Type 0 where
  pub domain_separator : Option ℕ
  pub authorization_state : ℕ → ℕ → Option Bool
  pub balance : ℕ → Option ℤ
  pub frozen : ℕ → Option Bool

pub data Parsed : Type 0 where
  malformed : String → Parsed
  parsed : Authorization → List ℕ → Parsed

unfoldable pub or_malformed {ℓ} : {A : Type ℓ} → Option A → String → (A → Parsed) → Parsed
or_malformed none reason k = Parsed.malformed reason
or_malformed (some a) reason k = k a

abbrev pub not_negative : Option ℤ → Option ℤ
not_negative v = v >>= λ a. if ltb_ℤ a (pos 0) then none else some a

unfoldable pub signature_of : String → Option (List ℕ)
unfolding decode_hex trim_0x
signature_of s =
    decode_hex (trim_0x s) >>= λ sig. if nat_beq (length sig) 65 then some sig else none

-- The transaction that a settlement submits.
pub data Submission : Type 0 where
  transfer_with_authorization : Authorization → SplitParts → Submission
  settle_and_deliver : ℕ → Authorization → SplitParts → Submission

module _ (eth : Eth) where
  unfoldable pub parse_exact_payload : ExactPayload → Parsed
  unfolding or_malformed
  parse_exact_payload p =
      let j = p.authorization in
      if not (eth.is_hex_address j.sender) || not (eth.is_hex_address j.recipient)
      then Parsed.malformed "invalid from/to address"
      else or_malformed (not_negative (set_string j.value)) "invalid value" (λ value.
        or_malformed (set_string j.valid_after) "invalid validAfter" (λ valid_after.
          or_malformed (set_string j.valid_before) "invalid validBefore" (λ valid_before.
            or_malformed (read_hex32 j.nonce) "invalid nonce" (λ nonce.
              or_malformed (signature_of p.signature) "invalid signature encoding" (λ sig.
                Parsed.parsed
                  (record {
                    sender = eth.hex_to_address j.sender;
                    recipient = eth.hex_to_address j.recipient;
                    value = value;
                    valid_after = valid_after;
                    valid_before = valid_before;
                    nonce = nonce;
                  })
                  sig)))))

  abbrev pub invalid : String → Answer VerifyResult
  invalid reason = some (some (record { is_valid = false; invalid_reason = reason; payer = "" }))

  -- The recipient, and whether the authorization is a receive authorization.
  unfoldable pub recipient_of : PaymentRequirements → ℕ × Bool
  recipient_of reqs = elim (lookup "dvp" reqs.extra) [
    | none ↦ (eth.hex_to_address reqs.pay_to, false)
    | some d ↦
        if eth.is_hex_address d
        then (eth.hex_to_address d, true)
        else (eth.hex_to_address reqs.pay_to, false)
  ]

  -- Step 4: replay, balance, freeze.
  unfoldable pub verify_state : TokenReads → Authorization → Answer VerifyResult
  verify_state t a = t.authorization_state a.sender a.nonce >>= λ used.
      if used
      then invalid "authorization already used"
      else (t.balance a.sender >>= λ balance.
          if ltb_ℤ balance a.value
          then invalid "payer balance below the value"
          else (t.frozen a.sender >>= λ frozen.
              if frozen
              then invalid "payer account is frozen"
              else some (
                  some (record {
                    is_valid = true;
                    invalid_reason = "";
                    payer = eth.address_hex a.sender;
                  }))))

  unfoldable pub verify_recovered : TokenReads → Authorization → Option ℕ → Answer VerifyResult
  unfolding verify_state
  verify_recovered t a none = invalid "signature recovery failed"
  verify_recovered t a (some signer) =
      if nat_beq signer a.sender then verify_state t a else invalid "signer != from"

  unfoldable pub recovered_signer : ℕ → Bool → Authorization → List ℕ → Option ℕ
  recovered_signer domain use_receive a sig =
      if use_receive
      then recover_receive_signer eth domain a sig
      else recover_signer eth domain a sig

  -- Step 3: the signature.
  unfoldable pub verify_signature : TokenReads → Authorization → List ℕ → Bool → Answer VerifyResult
  unfolding verify_recovered
  verify_signature t a sig use_receive = t.domain_separator >>= λ domain.
      verify_recovered t a (recovered_signer domain use_receive a sig)

  -- Step 2: the terms, at the second `now`.
  unfoldable pub verify_terms :
      TokenReads → ℕ → Authorization → List ℕ → PaymentRequirements → Answer VerifyResult
  unfolding verify_signature
  verify_terms t now a sig reqs =
      let (recipient, use_receive) = recipient_of reqs in
      if not (eth.is_hex_address reqs.pay_to)
      then none
      else if not (nat_beq a.recipient recipient)
      then invalid "recipient mismatch"
      else (set_string reqs.max_amount_required >>= λ price.
          if ltb_ℤ a.value price
          then invalid "insufficient amount"
          else if leb_ℤ a.valid_before (pos (now + 5))
          then invalid "authorization expires too soon"
          else if leb_ℤ (pos now) a.valid_after
          then invalid "authorization not yet valid"
          else verify_signature t a sig use_receive)

  unfoldable pub verify_parsed : TokenReads → ℕ → Parsed → PaymentRequirements → Answer VerifyResult
  unfolding verify_terms
  verify_parsed t now (Parsed.malformed reason) reqs = invalid reason
  verify_parsed t now (Parsed.parsed a sig) reqs = verify_terms t now a sig reqs

  -- `(*LocalFacilitator).Verify`
  unfoldable pub local_verify :
      TokenReads → ℕ → PaymentPayload → PaymentRequirements → Answer VerifyResult
  unfolding verify_parsed
  local_verify t now p reqs =
      if not (eqb_ℤ p.x402_version (pos 1))
      then invalid "unsupported x402 version"
      else if not (p.scheme == "exact")
      then invalid "unsupported scheme"
      else if not (p.network == reqs.network)
      then invalid "wrong network"
      else verify_parsed t now (parse_exact_payload p.payload) reqs

  unfoldable pub submission : Bool → PaymentRequirements → Authorization → SplitParts → Submission
  submission has_dvp reqs a parts =
      if has_dvp
      then settle_and_deliver (eth.hex_to_address reqs.pay_to) a parts
      else transfer_with_authorization a parts

  unfoldable pub mined_result : PaymentRequirements → Authorization → ℕ → Bool → SettleResult
  mined_result reqs a tx success = record {
    success = success;
    error_reason = if success then "" else "settlement transaction reverted";
    transaction = eth.hash_hex tx;
    network = reqs.network;
    payer = eth.address_hex a.sender;
  }

  -- `(*LocalFacilitator).Settle`: `mine` is the chain's answer, if the transaction was accepted and
  -- mined in time.
  unfoldable pub settle_parsed :
      (Submission → Option (ℕ × Bool)) → Bool → Parsed → PaymentRequirements → Answer SettleResult
  unfolding submission split_signature
  settle_parsed mine has_dvp (Parsed.malformed reason) reqs = none
  settle_parsed mine has_dvp (Parsed.parsed a sig) reqs = split_signature sig >>= λ parts.
      mine (submission has_dvp reqs a parts) >>= λ mined.
      some (some (mined_result reqs a mined.0 mined.1))

  unfoldable pub local_settle :
      (Submission → Option (ℕ × Bool))
      → Bool
      → PaymentPayload
      → PaymentRequirements
      → Answer SettleResult
  unfolding settle_parsed
  local_settle mine has_dvp p reqs = settle_parsed mine has_dvp (parse_exact_payload p.payload) reqs
