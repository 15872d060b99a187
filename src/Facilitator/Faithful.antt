-- ===== src/Facilitator/Faithful.antt =====
-- The remote facilitator in front of the service answers what the service's local facilitator does:
-- x402/facilitator_remote.go, cmd/facilitator/main.go and x402/facilitator_local.go together.
use stablecoin_x402_gateway.Base.{
  ◌==◌, string_eq, ℕ, suc, zero, ◌+◌, nat_beq, ◌≤◌, ◌≡◌, refl, ap, String, Bool, true, false, not,
  Option, none, some, List, [], ◌∷◌, length, if◌then◌else◌, ◌>>=◌, arith,
}
use stablecoin_x402_gateway.Base.Int.{pos, eqb_ℤ, ltb_ℤ, leb_ℤ}
use stablecoin_x402_gateway.Base.Text.{set_string}
use stablecoin_x402_gateway.Eth.{Eth}
use stablecoin_x402_gateway.Wire.{PaymentPayload, PaymentRequirements, VerifyResult}
use stablecoin_x402_gateway.Wallet.{Authorization, take, split_signature}
use stablecoin_x402_gateway.Facilitator.{
  Answer, SettleResult, TokenReads, Parsed, Submission, parse_exact_payload, verify_state,
  verify_recovered, verify_signature, verify_terms, verify_parsed, local_verify, settle_parsed,
  local_settle, recipient_of,
}
use stablecoin_x402_gateway.Facilitator.Service.{
  FacilitatorRequest, Codec, write_json, reply, handle_decoded, handler,
}
use stablecoin_x402_gateway.Facilitator.Remote.{
  Network, trim_right, max_body, read_response, post, remote_verify, remote_settle,
}

-- An answer that is an error or a result, not a nil result.
unfoldable pub is_definite {ℓ} : {A : Type ℓ} → Answer A → Bool
is_definite none = true
is_definite (some none) = false
is_definite (some (some a)) = true

record IsDefinite {ℓ} {A : Type ℓ} (x : Answer A) : Type ℓ where
  is_definite_eq : is_definite x ≡ true

IsDefinite-if {ℓ} :
    {A : Type ℓ} (b : Bool) (x y : Answer A)
    → IsDefinite x
    → IsDefinite y
    → IsDefinite (if b then x else y)
IsDefinite-if true x y hx hy = hx
IsDefinite-if false x y hx hy = hy

IsDefinite-bind {ℓ κ} :
    {A : Type ℓ} {B : Type κ} (o : Option B) (k : B → Answer A)
    → ((b : B) → IsDefinite (k b))
    → IsDefinite (o >>= k)
unfolding is_definite
IsDefinite-bind none k h = record { is_definite_eq = refl }
IsDefinite-bind (some b) k h = h b

IsDefinite-error {ℓ} : {A : Type ℓ} → IsDefinite {A = A} none
unfolding is_definite
IsDefinite-error = record { is_definite_eq = refl }

IsDefinite-result {ℓ} : {A : Type ℓ} (a : A) → IsDefinite (some (some a))
unfolding is_definite
IsDefinite-result a = record { is_definite_eq = refl }

module _ (eth : Eth) (t : TokenReads) where
  verify_state-IsDefinite : (a : Authorization) → IsDefinite (verify_state eth t a)
  unfolding verify_state
  verify_state-IsDefinite a = IsDefinite-bind (t.authorization_state a.sender a.nonce) _ (λ used.
      IsDefinite-if used _ _ (IsDefinite-result _) (
        IsDefinite-bind (t.balance a.sender) _ (λ balance.
          IsDefinite-if _ _ _ (IsDefinite-result _) (
            IsDefinite-bind (t.frozen a.sender) _
              (λ frozen. IsDefinite-if frozen _ _ (IsDefinite-result _) (IsDefinite-result _))))))

  verify_recovered-IsDefinite :
      (a : Authorization) (signer : Option ℕ) → IsDefinite (verify_recovered eth t a signer)
  unfolding verify_recovered
  verify_recovered-IsDefinite a none = (IsDefinite-result _)
  verify_recovered-IsDefinite a (some signer) =
      IsDefinite-if _ _ _ (verify_state-IsDefinite a) (IsDefinite-result _)

  verify_signature-IsDefinite :
      (a : Authorization) (sig : List ℕ) (use_receive : Bool)
      → IsDefinite (verify_signature eth t a sig use_receive)
  unfolding verify_signature
  verify_signature-IsDefinite a sig use_receive =
      IsDefinite-bind t.domain_separator _ (λ domain. verify_recovered-IsDefinite a _)

  verify_terms-IsDefinite :
      (now : ℕ) (a : Authorization) (sig : List ℕ) (reqs : PaymentRequirements)
      → IsDefinite (verify_terms eth t now a sig reqs)
  unfolding verify_terms
  verify_terms-IsDefinite now a sig reqs =
      IsDefinite-if (not (eth.is_hex_address reqs.pay_to)) _ _ IsDefinite-error (
        IsDefinite-if (not (nat_beq a.recipient (recipient_of eth reqs).0)) _ _
          (IsDefinite-result _)
          (IsDefinite-bind (set_string reqs.max_amount_required) _ (λ price.
            IsDefinite-if (ltb_ℤ a.value price) _ _ (IsDefinite-result _) (
              IsDefinite-if (leb_ℤ a.valid_before (pos (now + 5))) _ _ (IsDefinite-result _) (
                IsDefinite-if (leb_ℤ (pos now) a.valid_after) _ _ (IsDefinite-result _)
                  (verify_signature-IsDefinite a sig (recipient_of eth reqs).1))))))

  verify_parsed-IsDefinite :
      (now : ℕ) (x : Parsed) (reqs : PaymentRequirements)
      → IsDefinite (verify_parsed eth t now x reqs)
  unfolding verify_parsed
  verify_parsed-IsDefinite now (Parsed.malformed reason) reqs = (IsDefinite-result _)
  verify_parsed-IsDefinite now (Parsed.parsed a sig) reqs = verify_terms-IsDefinite now a sig reqs

  local_verify-IsDefinite :
      (now : ℕ) (p : PaymentPayload) (reqs : PaymentRequirements)
      → IsDefinite (local_verify eth t now p reqs)
  unfolding local_verify
  local_verify-IsDefinite now p reqs =
      IsDefinite-if (not (eqb_ℤ p.x402_version (pos 1))) _ _ (IsDefinite-result _) (
        IsDefinite-if (not (p.scheme == "exact")) _ _ (IsDefinite-result _) (
          IsDefinite-if (not (p.network == reqs.network)) _ _ (IsDefinite-result _)
            (verify_parsed-IsDefinite now (parse_exact_payload eth p.payload) reqs)))

settle_parsed-IsDefinite :
    (eth : Eth) (mine : Submission → Option (ℕ × Bool)) (has_dvp : Bool) (x : Parsed)
    (reqs : PaymentRequirements)
    → IsDefinite (settle_parsed eth mine has_dvp x reqs)
unfolding settle_parsed
settle_parsed-IsDefinite eth mine has_dvp (Parsed.malformed reason) reqs = IsDefinite-error
settle_parsed-IsDefinite eth mine has_dvp (Parsed.parsed a sig) reqs =
    IsDefinite-bind (split_signature sig) _
      (λ parts. IsDefinite-bind _ _ (λ mined. (IsDefinite-result _)))

take-all : (n : ℕ) (bs : List ℕ) → length bs ≤ n → take n bs ≡ bs
unfolding take
take-all zero [] h = refl
take-all zero (b ∷ bs) h = absurd (omega (arith, h))
take-all (suc n) [] h = refl
take-all (suc n) (b ∷ bs) h = ap (λ x. b ∷ x) (take-all n bs (omega (arith, h)))

-- A value that JSON carries over within the client's limit.
pub record Carries {ℓ} {A : Type ℓ} (codec : Codec A) (a : A) : Type ℓ where
  pub bytes : List ℕ
  pub is_encoded : codec.encode a ≡ some bytes
  pub fits : length bytes ≤ max_body
  pub is_decoded : codec.decode bytes ≡ some a

abbrev pub CarriesAnswer {ℓ} : {A : Type ℓ} → Codec A → Answer A → Type ℓ
CarriesAnswer {A = A} codec answer = (a : A) → answer ≡ some (some a) → Carries codec a

abbrev given {ℓ} : {A : Type ℓ} → Option A → Answer A
given o = o >>= λ a. some (some a)

received {ℓ} :
    {A : Type ℓ} (codec : Codec A) (answer : Answer A)
    → IsDefinite answer
    → CarriesAnswer codec answer
    → given (reply codec answer >>= λ resp. read_response codec resp) ≡ answer
unfolding reply write_json read_response is_definite
received codec none sure carries = refl
received codec (some none) sure carries = ground (arith, sure.is_definite_eq)
received codec (some (some a)) sure carries =
    let carried = carries a refl in
    rw (carried.is_encoded, take-all max_body carried.bytes carried.fits, carried.is_decoded) refl

-- The request arrives at a service under its path.
pub record Arrives {ℓ} {A : Type ℓ} (requests : Codec FacilitatorRequest) (codec : Codec A)
    (act : PaymentPayload → PaymentRequirements → Answer A) (http : Network) (base path : String)
    (p : PaymentPayload) (reqs : PaymentRequirements) : Type ℓ where
  pub body : List ℕ
  pub is_encoded :
      requests.encode
        (record { x402_version = pos 1; payment_payload = p; payment_requirements = reqs })
      ≡ some body
  pub is_decoded :
      requests.decode body
      ≡ some (record { x402_version = pos 1; payment_payload = p; payment_requirements = reqs })
  pub is_served : http (trim_right base) path body ≡ handler requests codec act "POST" body

post-Arrives {ℓ} :
    {A : Type ℓ} (requests : Codec FacilitatorRequest) (codec : Codec A)
    (act : PaymentPayload → PaymentRequirements → Answer A) (http : Network) (base path : String)
    (p : PaymentPayload) (reqs : PaymentRequirements)
    → Arrives requests codec act http base path p reqs
    → IsDefinite (act p reqs)
    → CarriesAnswer codec (act p reqs)
    → given (post requests codec http base path p reqs) ≡ act p reqs
unfolding post handler handle_decoded
post-Arrives requests codec act http base path p reqs arrives sure carries =
    rw (arrives.is_encoded, arrives.is_served, arrives.is_decoded)
      (received codec (act p reqs) sure carries)

-- Where the requests reach the service's handlers, and JSON carries them and the answers over within
-- the client's limit of a mebibyte, the remote facilitator answers what the service's local one
-- does, errors included, to a verification and to a settlement.
pub remote-local :
    (eth : Eth) (t : TokenReads) (now : ℕ) (mine : Submission → Option (ℕ × Bool)) (has_dvp : Bool)
    (requests : Codec FacilitatorRequest) (verdicts : Codec VerifyResult)
    (settlements : Codec SettleResult) (http : Network) (base : String) (p : PaymentPayload)
    (reqs : PaymentRequirements)
    → Arrives requests verdicts (local_verify eth t now) http base "/verify" p reqs
    → Arrives requests settlements (local_settle eth mine has_dvp) http base "/settle" p reqs
    → CarriesAnswer verdicts (local_verify eth t now p reqs)
    → CarriesAnswer settlements (local_settle eth mine has_dvp p reqs)
    → (remote_verify requests verdicts http base p reqs ≡ local_verify eth t now p reqs)
      × (remote_settle requests settlements http base p reqs ≡ local_settle eth mine has_dvp p reqs)
unfolding remote_verify remote_settle local_settle
remote-local eth t now mine has_dvp requests verdicts settlements http base p reqs verify settle
      carries_verdict carries_settled =
    (
      post-Arrives requests verdicts (local_verify eth t now) http base "/verify" p reqs verify
          (local_verify-IsDefinite eth t now p reqs) carries_verdict,
      post-Arrives requests settlements (local_settle eth mine has_dvp) http base "/settle" p reqs
          settle
          (settle_parsed-IsDefinite eth mine has_dvp (parse_exact_payload eth p.payload) reqs)
          carries_settled,
    )
