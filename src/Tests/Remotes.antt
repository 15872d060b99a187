-- ===== src/Tests/Remotes.antt =====
-- The remote facilitator of x402/facilitator_remote.go in front of a concrete service.
use stablecoin_x402_gateway.Base.{
  ℕ, ◌≡◌, refl, ap, Bool, true, false, Option, some, [], ◌∷◌, string_eq, ◌==◌, if◌then◌else◌, ◌>>=◌,
  arith,
}
use stablecoin_x402_gateway.Base.Int.{pos}
use stablecoin_x402_gateway.Wire.{VerifyResult}
use stablecoin_x402_gateway.Facilitator.{
  Answer, SettleResult, Submission, local_verify, local_settle,
}
use stablecoin_x402_gateway.Facilitator.Service.{FacilitatorRequest, Codec, handler}
use stablecoin_x402_gateway.Facilitator.Remote.{Network, trim_right, remote_verify, remote_settle}
use stablecoin_x402_gateway.Facilitator.Faithful.{CarriesAnswer, remote-local}
use stablecoin_x402_gateway.Tests.Honest.{honest}
use stablecoin_x402_gateway.Tests.Payments.{terms, reads, sent}

abbrev request : FacilitatorRequest
request = record { x402_version = pos 1; payment_payload = sent; payment_requirements = terms }

abbrev mines : Submission → Option (ℕ × Bool)
mines tx = some (900, true)

-- Codecs for one value each.
abbrev codec_of : {A : Type 0} → Option A → Codec A
codec_of a = record { encode = λ b. some (1 ∷ []); decode = λ bytes. a }

abbrev verdicts : Codec VerifyResult
verdicts = codec_of (local_verify honest reads 1_020 sent terms >>= λ v. v)

abbrev settlements : Codec SettleResult
settlements = codec_of (local_settle honest mines false sent terms >>= λ r. r)

abbrev network : Network
network base path body =
    if path == "/verify"
    then handler (codec_of (some request)) verdicts (local_verify honest reads 1_020) "POST" body
    else handler (codec_of (some request)) settlements (local_settle honest mines false) "POST" body

carries : {A : Type 0} (answer : Answer A) → CarriesAnswer (codec_of (answer >>= λ v. v)) answer
carries answer a h = record {
  bytes = 1 ∷ [];
  is_encoded = refl;
  fits = omega arith;
  is_decoded = ap (λ x. x >>= λ v. v) h;
}

trim_right_tests : trim_right "http://facilitator//" ≡ "http://facilitator"
unfolding trim_right
trim_right_tests = refl

remote-local_example :
    (remote_verify (codec_of (some request)) verdicts network "http://facilitator/" sent terms
      ≡ local_verify honest reads 1_020 sent terms)
    × (remote_settle (codec_of (some request)) settlements network "http://facilitator/" sent terms
        ≡ local_settle honest mines false sent terms)
remote-local_example =
    remote-local honest reads 1_020 mines false (codec_of (some request)) verdicts settlements
      network "http://facilitator/" sent terms
      (record { body = 1 ∷ []; is_encoded = refl; is_decoded = refl; is_served = refl })
      (record { body = 1 ∷ []; is_encoded = refl; is_decoded = refl; is_served = refl })
      (carries (local_verify honest reads 1_020 sent terms))
      (carries (local_settle honest mines false sent terms))
