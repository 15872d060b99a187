-- ===== src/Facilitator/Verdict.antt =====
-- What a valid verdict of the local facilitator means: x402/facilitator_local.go.
use stablecoin_x402_gateway.Base.{
  ℕ, ◌+◌, String, ◌≡◌, refl, ap, ◌∙◌, ◌↔◌, Bool, true, false, not, Option, none, some, List,
  nat_beq, nat_beq_iff, string_eq, ◌==◌, beq-eq, beq_self, if◌then◌else◌, ◌>>=◌, inl, inr,
  Bool-cases, arith,
}
use stablecoin_x402_gateway.Base.Int.{ℤ, pos, ltb_ℤ, leb_ℤ, eqb_ℤ, ◌≤ℤ◌}
use stablecoin_x402_gateway.Base.Text.{set_string}
use stablecoin_x402_gateway.Eth.{Eth}
use stablecoin_x402_gateway.Wire.{PaymentPayload, PaymentRequirements, VerifyResult}
use stablecoin_x402_gateway.Wallet.{Authorization}
use stablecoin_x402_gateway.Facilitator.{
  Answer, TokenReads, Parsed, invalid, parse_exact_payload, recipient_of, recovered_signer,
  verify_state, verify_recovered, verify_signature, verify_terms, verify_parsed, local_verify,
}

-- The facilitator answered that the payment is valid.
unfoldable pub accepted : Answer VerifyResult → Bool
accepted none = false
accepted (some none) = false
accepted (some (some v)) = v.is_valid

abbrev pub IsFundable : TokenReads → Authorization → Type 0
IsFundable t a =
    (t.authorization_state a.sender a.nonce ≡ some false)
    × ((balance : ℤ) × (t.balance a.sender ≡ some balance) × (a.value ≤ℤ balance))
    × (t.frozen a.sender ≡ some false)

abbrev pub IsSigned : Eth → TokenReads → Authorization → List ℕ → Bool → Type 0
IsSigned eth t a sig use_receive =
    (domain : ℕ) × (t.domain_separator ≡ some domain)
    × (recovered_signer eth domain use_receive a sig ≡ some a.sender)

-- The authorization pays the right recipient enough, and stands in its time window.
abbrev pub MeetsTerms : Eth → ℕ → Authorization → PaymentRequirements → Type 0
MeetsTerms eth now a reqs =
    (eth.is_hex_address reqs.pay_to ≡ true)
    × (a.recipient ≡ (recipient_of eth reqs).0)
    × ((price : ℤ) × (set_string reqs.max_amount_required ≡ some price) × (price ≤ℤ a.value))
    × (ltb_ℤ (pos (now + 5)) a.valid_before ≡ true)
    × (ltb_ℤ a.valid_after (pos now) ≡ true)

abbrev pub MeetsProtocol : PaymentPayload → PaymentRequirements → Type 0
MeetsProtocol p reqs =
    (eqb_ℤ p.x402_version (pos 1) ≡ true) × (p.scheme ≡ "exact") × (p.network ≡ reqs.network)

abbrev pub IsPayable : Eth → TokenReads → ℕ → PaymentPayload → PaymentRequirements → Type 0
IsPayable eth t now p reqs =
    MeetsProtocol p reqs
    × ((a : Authorization) × (sig : List ℕ) × (parse_exact_payload eth p.payload
          ≡ Parsed.parsed a sig)
        × MeetsTerms eth now a reqs
        × IsSigned eth t a sig (recipient_of eth reqs).1
        × IsFundable t a)

-- One check, and one read that may fail.
accepted-check :
    (eth : Eth) (b : Bool) (reason : String) (k : Answer VerifyResult)
    → accepted (if b then invalid eth reason else k) ≡ true
    → (b ≡ false) × (accepted k ≡ true)
unfolding accepted
accepted-check eth true reason k h = ground arith
accepted-check eth false reason k h = (refl, h)

accepted-read {κ} :
    {A : Type κ} (o : Option A) (k : A → Answer VerifyResult)
    → accepted (o >>= k) ≡ true
    → (a : A) × (o ≡ some a) × (accepted (k a) ≡ true)
unfolding accepted
accepted-read none k h = ground arith
accepted-read (some a) k h = (a, refl, h)

accepted-state :
    (eth : Eth) (t : TokenReads) (a : Authorization)
    → accepted (verify_state eth t a) ≡ true
    → IsFundable t a
unfolding verify_state
accepted-state eth t a h =
    let (used, has_used, h₁) = accepted-read (t.authorization_state a.sender a.nonce) _ h in
    let (unused, h₂) = accepted-check eth used _ _ h₁ in
    let (balance, has_balance, h₃) = accepted-read (t.balance a.sender) _ h₂ in
    let (covers, h₄) = accepted-check eth (ltb_ℤ balance a.value) _ _ h₃ in
    let (frozen, has_frozen, h₅) = accepted-read (t.frozen a.sender) _ h₄ in
    let (thawed, h₆) = accepted-check eth frozen _ _ h₅ in
    (has_used ∙ ap some unused, (balance, has_balance, ground arith), has_frozen ∙ ap some thawed)

accepted-recovered :
    (eth : Eth) (t : TokenReads) (a : Authorization) (signer : Option ℕ)
    → accepted (verify_recovered eth t a signer) ≡ true
    → (signer ≡ some a.sender) × IsFundable t a
unfolding verify_recovered accepted
accepted-recovered eth t a none h = ground arith
accepted-recovered eth t a (some signer) h = elim (Bool-cases (nat_beq signer a.sender)) [
  | inl same ↦
      (ap some ((nat_beq_iff signer a.sender).0 same), accepted-state eth t a (rw same at h))
  | inr other ↦ ground arith
]

accepted-signature :
    (eth : Eth) (t : TokenReads) (a : Authorization) (sig : List ℕ) (use_receive : Bool)
    → accepted (verify_signature eth t a sig use_receive) ≡ true
    → IsSigned eth t a sig use_receive × IsFundable t a
unfolding verify_signature
accepted-signature eth t a sig use_receive h =
    let (domain, has_domain, h₁) = accepted-read t.domain_separator _ h in
    let (signed, fundable) = accepted-recovered eth t a _ h₁ in
    ((domain, has_domain, signed), fundable)

not-true : (b : Bool) → not b ≡ false → b ≡ true
not-true b h = ground arith

accepted-terms :
    (eth : Eth) (t : TokenReads) (now : ℕ) (a : Authorization) (sig : List ℕ)
    (reqs : PaymentRequirements)
    → accepted (verify_terms eth t now a sig reqs) ≡ true
    → MeetsTerms eth now a reqs × IsSigned eth t a sig (recipient_of eth reqs).1 × IsFundable t a
unfolding verify_terms accepted
accepted-terms eth t now a sig reqs h = elim (Bool-cases (eth.is_hex_address reqs.pay_to)) [
  | inr bad ↦ ground arith
  | inl hex ↦
      let (recipient, h₁) =
        accepted-check eth (not (nat_beq a.recipient (recipient_of eth reqs).0)) _ _
          (rw hex at h) in
      let (price, has_price, h₂) = accepted-read (set_string reqs.max_amount_required) _ h₁ in
      let (covers, h₃) = accepted-check eth (ltb_ℤ a.value price) _ _ h₂ in
      let (in_time, h₄) = accepted-check eth (leb_ℤ a.valid_before (pos (now + 5))) _ _ h₃ in
      let (started, h₅) = accepted-check eth (leb_ℤ (pos now) a.valid_after) _ _ h₄ in
      let (signed, fundable) = accepted-signature eth t a sig _ h₅ in
      (
        (
          hex,
          (nat_beq_iff a.recipient _).0 (not-true _ recipient),
          (price, has_price, ground arith),
          ground arith,
          ground arith,
        ),
        signed,
        fundable,
      )
]

accepted-parsed :
    (eth : Eth) (t : TokenReads) (now : ℕ) (x : Parsed) (reqs : PaymentRequirements)
    → accepted (verify_parsed eth t now x reqs) ≡ true
    → (a : Authorization) × (sig : List ℕ) × (x ≡ Parsed.parsed a sig)
      × MeetsTerms eth now a reqs
      × IsSigned eth t a sig (recipient_of eth reqs).1
      × IsFundable t a
unfolding verify_parsed accepted
accepted-parsed eth t now (Parsed.malformed reason) reqs h = ground arith
accepted-parsed eth t now (Parsed.parsed a sig) reqs h =
    let (terms, signed, fundable) = accepted-terms eth t now a sig reqs h in
    (a, sig, refl, terms, signed, fundable)

accepted_sound :
    (eth : Eth) (t : TokenReads) (now : ℕ) (p : PaymentPayload) (reqs : PaymentRequirements)
    → accepted (local_verify eth t now p reqs) ≡ true
    → IsPayable eth t now p reqs
unfolding local_verify
accepted_sound eth t now p reqs h =
    let (version, h₁) = accepted-check eth (not (eqb_ℤ p.x402_version (pos 1))) _ _ h in
    let (scheme, h₂) = accepted-check eth (not (p.scheme == "exact")) _ _ h₁ in
    let (network, h₃) = accepted-check eth (not (p.network == reqs.network)) _ _ h₂ in
    (
      (not-true _ version, beq-eq _ _ (not-true _ scheme), beq-eq _ _ (not-true _ network)),
      accepted-parsed eth t now _ reqs h₃,
    )

IsFundable-accepted :
    (eth : Eth) (t : TokenReads) (a : Authorization)
    → IsFundable t a
    → accepted (verify_state eth t a) ≡ true
unfolding verify_state accepted
IsFundable-accepted eth t a (unused, (balance, has_balance, covers), thawed) =
    let enough : ltb_ℤ balance a.value ≡ false = ground arith in
    rw (unused, has_balance, enough, thawed) refl

IsSigned-accepted :
    (eth : Eth) (t : TokenReads) (a : Authorization) (sig : List ℕ) (use_receive : Bool)
    → IsSigned eth t a sig use_receive
    → IsFundable t a
    → accepted (verify_signature eth t a sig use_receive) ≡ true
unfolding verify_signature verify_recovered
IsSigned-accepted eth t a sig use_receive (domain, has_domain, signed) fundable =
    rw (has_domain, signed, (nat_beq_iff a.sender a.sender).1 refl)
      (IsFundable-accepted eth t a fundable)

MeetsTerms-accepted :
    (eth : Eth) (t : TokenReads) (now : ℕ) (a : Authorization) (sig : List ℕ)
    (reqs : PaymentRequirements)
    → MeetsTerms eth now a reqs
    → IsSigned eth t a sig (recipient_of eth reqs).1
    → IsFundable t a
    → accepted (verify_terms eth t now a sig reqs) ≡ true
unfolding verify_terms
MeetsTerms-accepted eth t now a sig reqs
      (hex, recipient, (price, has_price, covers), in_time, started) signed fundable =
    let same : nat_beq a.recipient (recipient_of eth reqs).0 ≡ true =
      (nat_beq_iff a.recipient _).1 recipient in
    let enough : ltb_ℤ a.value price ≡ false = ground arith in
    let live : leb_ℤ a.valid_before (pos (now + 5)) ≡ false = ground arith in
    let begun : leb_ℤ (pos now) a.valid_after ≡ false = ground arith in
    rw (hex, same, has_price, enough, live, begun) (IsSigned-accepted eth t a sig _ signed fundable)

accepted_complete :
    (eth : Eth) (t : TokenReads) (now : ℕ) (p : PaymentPayload) (reqs : PaymentRequirements)
    → IsPayable eth t now p reqs
    → accepted (local_verify eth t now p reqs) ≡ true
unfolding local_verify verify_parsed
accepted_complete eth t now p reqs
      ((version, scheme, network), (a, sig, parse, terms, signed, fundable)) =
    let same_scheme : (p.scheme == "exact") ≡ true =
      ap (λ x. x == "exact") scheme ∙ beq_self {K = String} "exact" in
    let same_network : (p.network == reqs.network) ≡ true =
      ap (λ x. x == reqs.network) network ∙ beq_self {K = String} reqs.network in
    rw (version, same_scheme, same_network, parse)
      (MeetsTerms-accepted eth t now a sig reqs terms signed fundable)

-- The local facilitator answers that a payment is valid exactly when the payment has the version,
-- the scheme and the network of the terms, its payload is readable, it pays the advertised
-- recipient at least the price, stands in its time window with more than five seconds left, is
-- signed by the payer, and the token reports the nonce unused, the balance sufficient and the payer
-- not frozen.
pub local_verify_lem :
    (eth : Eth) (t : TokenReads) (now : ℕ) (p : PaymentPayload) (reqs : PaymentRequirements)
    → (accepted (local_verify eth t now p reqs) ≡ true) ↔ IsPayable eth t now p reqs
local_verify_lem eth t now p reqs =
    (accepted_sound eth t now p reqs, accepted_complete eth t now p reqs)
