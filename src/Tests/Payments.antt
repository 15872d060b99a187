-- ===== src/Tests/Payments.antt =====
-- The agent's payment and the local facilitator at concrete inputs.
use stablecoin_x402_gateway.Base.{◌≡◌, ◌↔◌, refl, true, false, some, [], string_eq, arith}
use stablecoin_x402_gateway.Base.Int.{pos}
use stablecoin_x402_gateway.Base.Dict.{lookup}
use stablecoin_x402_gateway.Base.Hex.{bytes32_text, decode_hex, trim_0x, hex_value}
use stablecoin_x402_gateway.Base.Text.{set_string}
use stablecoin_x402_gateway.Wire.{PaymentPayload, PaymentRequirements}
use stablecoin_x402_gateway.Wallet.{bound_nonce, raise_v, sign_struct, sign_authorization}
use stablecoin_x402_gateway.Facilitator.{TokenReads, local_verify, recipient_of}
use stablecoin_x402_gateway.Facilitator.Verdict.{accepted, IsPayable, local_verify_lem}
use stablecoin_x402_gateway.Agent.{
  build_payment, choose_nonce, nonce_for, payment_authorization, sign_payment, signed_payload,
  timeout_or_default,
}
use stablecoin_x402_gateway.Agent.Accepted.{build_payment-accepted}
use stablecoin_x402_gateway.Tests.Sample.{bytes}
use stablecoin_x402_gateway.Tests.Honest.{honest, honest_agent, honest-ReadsHex, honest-Recovers}

abbrev pub terms : PaymentRequirements
terms = record {
  scheme = "exact";
  network = "eip155:1337";
  max_amount_required = "50";
  resource = "http://shop/report";
  description = "";
  mime_type = "";
  pay_to = "0x0000000000000000000000000000000000000003";
  max_timeout_seconds = pos 60;
  asset = "0x0000000000000000000000000000000000000004";
  extra = [];
}

abbrev pub reads : TokenReads
reads = record {
  domain_separator = some 77;
  authorization_state = λ payer nonce. some false;
  balance = λ payer. some (pos 80);
  frozen = λ payer. some false;
}

abbrev pub sent : PaymentPayload
sent =
    signed_payload honest honest_agent terms
      (payment_authorization honest honest_agent 1_000 terms (pos 50)
        (bound_nonce honest 7 "http://shop/report"))
      (bytes32_text 7) (bytes 64 28)

sent_payment : build_payment honest honest_agent 1_000 (some 7) terms (pos 50) ≡ some sent
unfolding build_payment choose_nonce nonce_for payment_authorization sign_payment sign_authorization
    sign_struct raise_v recipient_of lookup timeout_or_default
sent_payment = refl

price-set_string : set_string "50" ≡ some (pos 50)
unfolding set_string
price-set_string = refl

timeout : timeout_or_default honest (pos 60) ≡ pos 60
unfolding timeout_or_default
timeout = refl

build_payment-accepted_example : accepted (local_verify honest reads 1_020 sent terms) ≡ true
unfolding payment_authorization decode_hex trim_0x hex_value
build_payment-accepted_example =
    build_payment-accepted honest honest_agent reads 1_000 1_020 60 7 50 terms sent honest-ReadsHex
      honest-Recovers (omega arith) refl refl price-set_string timeout (omega arith) (omega arith)
      (omega arith) refl (refl, (pos 80, refl, omega arith), refl) sent_payment

local_verify_lem_example :
    (accepted (local_verify honest reads 1_020 sent terms) ≡ true)
    ↔ IsPayable honest reads 1_020 sent terms
local_verify_lem_example = local_verify_lem honest reads 1_020 sent terms
