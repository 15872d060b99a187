-- ===== src/Facilitator/Service.antt =====
-- The facilitator's HTTP service, cmd/facilitator/main.go: its `/verify` and `/settle` handlers over
-- a facilitator. JSON is a parameter; the text of an error answer and the log are left out.
use stablecoin_x402_gateway.Base.{
  ℕ, String, not, Option, none, some, List, [], string_eq, ◌==◌, if◌then◌else◌,
}
use stablecoin_x402_gateway.Base.Int.{ℤ}
use stablecoin_x402_gateway.Wire.{PaymentPayload, PaymentRequirements}
use stablecoin_x402_gateway.Facilitator.{Answer}

pub record FacilitatorRequest : Type 0 where
  pub x402_version : ℤ
  pub payment_payload : PaymentPayload
  pub payment_requirements : PaymentRequirements

-- encoding/json for one kind of value.
pub record Codec {ℓ} (A : Type ℓ) : Type ℓ where
  pub encode : A → Option (List ℕ)
  pub decode : List ℕ → Option A

-- A body is `none` where reading it fails.
pub record HttpResponse : Type 0 where
  pub status : ℕ
  pub body : Option (List ℕ)

abbrev pub http_error : ℕ → HttpResponse
http_error status = record { status = status; body = some [] }

abbrev written : Option (List ℕ) → List ℕ
written none = []
written (some bytes) = bytes

-- `writeJSON`: a value that does not encode leaves the body empty.
unfoldable pub write_json {ℓ} : {A : Type ℓ} → Codec A → A → HttpResponse
write_json codec a = record { status = 200; body = some (written (codec.encode a)) }

-- A nil result is a panic, where the connection ends without an answer.
unfoldable pub reply {ℓ} : {A : Type ℓ} → Codec A → Answer A → Option HttpResponse
unfolding write_json
reply codec none = some (http_error 500)
reply codec (some none) = none
reply codec (some (some a)) = some (write_json codec a)

unfoldable pub handle_decoded {ℓ} :
    {A : Type ℓ}
    → Codec A
    → (PaymentPayload → PaymentRequirements → Answer A)
    → Option FacilitatorRequest
    → Option HttpResponse
unfolding reply
handle_decoded codec act none = some (http_error 400)
handle_decoded codec act (some req) = reply codec (act req.payment_payload req.payment_requirements)

-- `verifyHandler` and `settleHandler`, which differ in what they call.
unfoldable pub handler {ℓ} :
    {A : Type ℓ}
    → Codec FacilitatorRequest
    → Codec A
    → (PaymentPayload → PaymentRequirements → Answer A)
    → String
    → List ℕ
    → Option HttpResponse
unfolding handle_decoded
handler requests codec act method body =
    if not (method == "POST")
    then some (http_error 405)
    else handle_decoded codec act (requests.decode body)
