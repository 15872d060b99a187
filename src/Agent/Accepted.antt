-- ===== src/Agent/Accepted.antt =====
-- A payment that the agent builds passes the gateway's resource binding and the local facilitator:
-- x402/agent.go `buildPayment` with x402/gateway.go `checkResourceBinding` and
-- x402/facilitator_local.go `Verify`.
use stablecoin_x402_gateway.Base.{
  ℕ, ◌+◌, ◌^◌, ◌<◌, ◌≡◌, refl, sym, ap, subst, ◌∙◌, String, Bool, true, false, none, some, some-eq,
  bind-some, List, nat_beq, nat_beq_iff, length, string_eq, if_true, arith, Option-cases,
  Bool-cases, inl, inr,
}
use stablecoin_x402_gateway.Base.Int.{ℤ, pos, ◌+ℤ◌, ltb_ℤ, wrap64, wrap64_small, +ℤ_parts, int_laws}
use stablecoin_x402_gateway.Base.Dict.{lookup}
use stablecoin_x402_gateway.Base.Text.{set_string}
use stablecoin_x402_gateway.Base.Decimal.{set_string-integer_text}
use stablecoin_x402_gateway.Base.Hex.{
  AreBytes, prefixed_hex, bytes32_text, decode_hex-prefixed_hex, read_hex32-bytes32_text,
}
use stablecoin_x402_gateway.Eth.{Eth}
use stablecoin_x402_gateway.Wire.{PaymentPayload, PaymentRequirements}
use stablecoin_x402_gateway.Wallet.{
  Authorization, bound_nonce, transfer_struct_hash, receive_struct_hash, recover_signer,
  recover_receive_signer, sign_authorization, sign_receive_authorization,
}
use stablecoin_x402_gateway.Wallet.Signing.{Recovers, sign_struct-Verifies}
use stablecoin_x402_gateway.Facilitator.{
  TokenReads, parsed, or_malformed, signature_of, parse_exact_payload, recipient_of,
  recovered_signer, local_verify,
}
use stablecoin_x402_gateway.Facilitator.Verdict.{accepted, IsFundable, local_verify_lem}
use stablecoin_x402_gateway.Agent.{
  Agent, wire_authorization, choose_nonce, nonce_for, timeout_or_default, payment_authorization,
  sign_payment, signed_payload, build_payment,
}

-- go-ethereum: an address has 20 bytes and its text is read back, hex text gives its bytes, and a
-- hash has 32 bytes.
pub record ReadsHex (eth : Eth) : Type 0 where
  pub has_20_bytes : (text : String) → eth.hex_to_address text < 2 ^ 160
  pub is_address : (a : ℕ) → a < 2 ^ 160 → eth.is_hex_address (eth.address_hex a) ≡ true
  pub address : (a : ℕ) → a < 2 ^ 160 → eth.hex_to_address (eth.address_hex a) ≡ a
  pub bytes : (bs : List ℕ) → AreBytes bs → eth.from_hex (prefixed_hex bs) ≡ bs
  pub has_32_bytes : (ws : List ℕ) → eth.keccak_words ws < 2 ^ 256

signature_of-prefixed_hex :
    (sig : List ℕ) → AreBytes sig → length sig ≡ 65 → signature_of (prefixed_hex sig) ≡ some sig
unfolding signature_of
signature_of-prefixed_hex sig bytes long =
    rw (decode_hex-prefixed_hex sig bytes)
      (if_true (nat_beq (length sig) 65) _ _ ((nat_beq_iff _ 65).1 long))

-- The payload that the agent writes for an authorization between addresses, of a value that is not
-- negative, with a signature of 65 bytes, is read back by the facilitator as that authorization and
-- signature.
pub parse_exact_payload-signed_payload :
    (eth : Eth) (a : Agent) (req : PaymentRequirements) (auth : Authorization) (v : ℕ)
    (seed : String) (sig : List ℕ)
    → ReadsHex eth
    → auth.sender < 2 ^ 160
    → auth.recipient < 2 ^ 160
    → auth.value ≡ pos v
    → auth.nonce < 2 ^ 256
    → AreBytes sig
    → length sig ≡ 65
    → parse_exact_payload eth (signed_payload eth a req auth seed sig).payload ≡ parsed auth sig
unfolding parse_exact_payload signed_payload wire_authorization or_malformed
parse_exact_payload-signed_payload eth a req auth v seed sig reads sender recipient value fits bytes
      long =
    let not_negative : ltb_ℤ auth.value (pos 0) ≡ false =
      ap (λ x. ltb_ℤ x (pos 0)) value ∙ ground arith in
    rw
      (
        parse_exact_payload,
        signed_payload,
        wire_authorization,
        reads.is_address auth.sender sender,
        reads.is_address auth.recipient recipient,
        set_string-integer_text auth.value,
        not_negative,
        set_string-integer_text auth.valid_after,
        set_string-integer_text auth.valid_before,
        read_hex32-bytes32_text auth.nonce fits,
        signature_of-prefixed_hex sig bytes long,
        reads.address auth.sender sender,
        reads.address auth.recipient recipient,
      )
      refl

-- The recipient of the terms is an address.
recipient_of-has_20_bytes :
    (eth : Eth) (req : PaymentRequirements) → ReadsHex eth → (recipient_of eth req).0 < 2 ^ 160
unfolding recipient_of
recipient_of-has_20_bytes eth req reads = elim (Option-cases (lookup "dvp" req.extra)) [
  | inl absent ↦ rw (absent, recipient_of) (reads.has_20_bytes req.pay_to)
  | inr (d, found) ↦ elim (Bool-cases (eth.is_hex_address d)) [
    | inl hex ↦ rw (found, hex, recipient_of) (reads.has_20_bytes d)
    | inr text ↦ rw (found, text, recipient_of) (reads.has_20_bytes req.pay_to)
  ]
]

-- What a signed payment is good for.
sign_payment-recovered :
    (eth : Eth) (a : Agent) (use_receive : Bool) (auth : Authorization) (sig : List ℕ)
    → Recovers eth a.wallet
    → sign_payment eth a use_receive auth ≡ some sig
    → (length sig ≡ 65)
      × AreBytes sig
      × (recovered_signer eth a.domain_separator use_receive auth sig ≡ some auth.sender)
unfolding sign_payment recovered_signer sign_authorization sign_receive_authorization recover_signer
    recover_receive_signer
sign_payment-recovered eth a true auth sig lib signed =
    let (own, good) =
      sign_struct-Verifies eth a.wallet a.domain_separator auth (receive_struct_hash eth auth) sig
        lib signed in
    (good.has_length, good.has_bytes, good.is_recovered ∙ ap some (sym own))
sign_payment-recovered eth a false auth sig lib signed =
    let (own, good) =
      sign_struct-Verifies eth a.wallet a.domain_separator auth (transfer_struct_hash eth auth) sig
        lib signed in
    (good.has_length, good.has_bytes, good.is_recovered ∙ ap some (sym own))

-- What is known of a built payment without a confirmation.
pub built :
    (eth : Eth) (a : Agent) (now n : ℕ) (req : PaymentRequirements) (amount : ℤ)
    (p : PaymentPayload)
    → a.confirmation ≡ none
    → build_payment eth a now (some n) req amount ≡ some p
    → let auth = payment_authorization eth a now req amount (bound_nonce eth n req.resource) in
      (sig : List ℕ) × (sign_payment eth a (recipient_of eth req).1 auth ≡ some sig)
      × (signed_payload eth a req auth (bytes32_text n) sig ≡ p)
unfolding build_payment choose_nonce nonce_for
built eth a now n req amount p unconfirmed made =
    let (chosen, chooses, rest) = bind-some (choose_nonce eth a (some n) req.resource) _ p made in
    let same : chosen ≡ (bound_nonce eth n req.resource, bytes32_text n) =
      some-eq (sym chooses ∙ ap (λ o. nonce_for eth o (some n) req.resource) unconfirmed) in
    subst
      (λ (c : ℕ × String).
        let auth = payment_authorization eth a now req amount c.0 in
        (sig : List ℕ) × (sign_payment eth a (recipient_of eth req).1 auth ≡ some sig)
        × (signed_payload eth a req auth c.1 sig ≡ p))
      same (let (sig, signs, wrote) = bind-some _ _ p rest in (sig, signs, some-eq wrote))

valid_before-payment_authorization :
    (eth : Eth) (a : Agent) (now t n : ℕ) (req : PaymentRequirements) (amount : ℤ)
    → timeout_or_default eth req.max_timeout_seconds ≡ pos t
    → now + t < 2 ^ 63
    → (payment_authorization eth a now req amount n).valid_before ≡ pos (now + t)
unfolding payment_authorization
valid_before-payment_authorization eth a now t n req amount timeout small =
    let total : (pos now +ℤ timeout_or_default eth req.max_timeout_seconds) ≡ pos (now + t) =
      ap (λ x. pos now +ℤ x) timeout ∙ grind (int_laws, +ℤ_parts (pos now) (pos t)) in
    ap wrap64 total ∙ wrap64_small (now + t) small

-- A payment without a confirmation that the agent builds from terms in force, for their amount and
-- at a time `now`, is valid for the local facilitator at every later second that leaves more than
-- five seconds of the terms' timeout, where the agent signs for the token's domain and the token
-- reports the nonce unused, the balance sufficient and the payer not frozen. The wallet has an
-- address of 20 bytes, and the library's documented behaviour is assumed: it reads back its hex texts and recovers signers.
pub build_payment-accepted :
    (eth : Eth) (a : Agent) (t : TokenReads) (now later timeout n v : ℕ) (req : PaymentRequirements)
    (p : PaymentPayload)
    → ReadsHex eth
    → Recovers eth a.wallet
    → a.wallet.address < 2 ^ 160
    → a.confirmation ≡ none
    → eth.is_hex_address req.pay_to ≡ true
    → set_string req.max_amount_required ≡ some (pos v)
    → timeout_or_default eth req.max_timeout_seconds ≡ pos timeout
    → now + timeout < 2 ^ 63
    → 0 < later
    → later + 5 < now + timeout
    → t.domain_separator ≡ some a.domain_separator
    → IsFundable t (payment_authorization eth a now req (pos v) (bound_nonce eth n req.resource))
    → build_payment eth a now (some n) req (pos v) ≡ some p
    → accepted (local_verify eth t later p req) ≡ true
unfolding signed_payload payment_authorization bound_nonce
build_payment-accepted eth a t now later timeout n v req p reads lib own unconfirmed hex price
      expires small started in_time domain fundable made =
    let nonce = bound_nonce eth n req.resource in
    let auth = payment_authorization eth a now req (pos v) nonce in
    let (sig, signs, wrote) = built eth a now n req (pos v) p unconfirmed made in
    let (long, bytes, recovered) =
      sign_payment-recovered eth a (recipient_of eth req).1 auth sig lib signs in
    let before =
      valid_before-payment_authorization eth a now timeout nonce req (pos v) expires small in
    let lasts : ltb_ℤ (pos (later + 5)) auth.valid_before ≡ true =
      ap (λ x. ltb_ℤ (pos (later + 5)) x) before ∙ ground arith in
    subst (λ q. accepted (local_verify eth t later q req) ≡ true) wrote
      ((local_verify_lem eth t later (signed_payload eth a req auth (bytes32_text n) sig) req).1 (
        (refl, refl, refl),
        (
          auth,
          sig,
          parse_exact_payload-signed_payload eth a req auth v (bytes32_text n) sig reads own
              (recipient_of-has_20_bytes eth req reads) refl (reads.has_32_bytes _) bytes long,
          (hex, refl, (pos v, price, omega arith), lasts, ground arith),
          (a.domain_separator, domain, recovered),
          fundable,
        ),
      ))
