-- ===== src/Facilitator/Remote.antt =====
-- The facilitator behind HTTP, x402/facilitator_remote.go. The network is a parameter that answers a
-- POST to a base address and a path, or not at all.
use stablecoin_x402_gateway.Base.{
  ℕ, String, not, Option, none, some, List, nat_beq, if◌then◌else◌, ◌>>=◌, string_eq, ◌==◌, ◌&&◌,
}
use stablecoin_x402_gateway.Base.Int.{pos}
use stablecoin_x402_gateway.Wire.{PaymentPayload, PaymentRequirements, VerifyResult}
use stablecoin_x402_gateway.Wallet.{take}
use stablecoin_x402_gateway.Facilitator.{Answer, SettleResult}
use stablecoin_x402_gateway.Facilitator.Service.{FacilitatorRequest, Codec, HttpResponse}
use Prim.Native.Char.{code}

abbrev pub Network : Type 0
Network = String → String → List ℕ → Option HttpResponse

-- `strings.TrimRight(s, "/")`
unfoldable pub trim_right : String → String
trim_right String.[] = ""
trim_right (String.◌∷◌ c s) =
    let rest = trim_right s in if nat_beq (code c) b'/' && rest == "" then "" else String.◌∷◌ c rest

abbrev pub max_body : ℕ
max_body = 1_048_576

-- What `post` makes of the response: of its body it reads the first `max_body` bytes.
unfoldable pub read_response {ℓ} : {A : Type ℓ} → Codec A → HttpResponse → Option A
unfolding take
read_response codec resp = resp.body >>= λ bytes.
    if not (nat_beq resp.status 200) then none else codec.decode (take max_body bytes)

-- `none` is the error return.
unfoldable pub post {ℓ} :
    {A : Type ℓ}
    → Codec FacilitatorRequest
    → Codec A
    → Network
    → String
    → String
    → PaymentPayload
    → PaymentRequirements
    → Option A
unfolding read_response trim_right
post requests codec http base path p reqs =
    let req : FacilitatorRequest = record {
      x402_version = pos 1;
      payment_payload = p;
      payment_requirements = reqs;
    } in
    requests.encode req >>= λ body.
    http (trim_right base) path body >>= λ resp. read_response codec resp

unfoldable pub remote_verify :
    Codec FacilitatorRequest
    → Codec VerifyResult
    → Network
    → String
    → PaymentPayload
    → PaymentRequirements
    → Answer VerifyResult
unfolding post
remote_verify requests codec http base p reqs =
    post requests codec http base "/verify" p reqs >>= λ out. some (some out)

unfoldable pub remote_settle :
    Codec FacilitatorRequest
    → Codec SettleResult
    → Network
    → String
    → PaymentPayload
    → PaymentRequirements
    → Answer SettleResult
unfolding post
remote_settle requests codec http base p reqs =
    post requests codec http base "/settle" p reqs >>= λ out. some (some out)
