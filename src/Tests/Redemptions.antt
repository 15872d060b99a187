-- ===== src/Tests/Redemptions.antt =====
-- A redemption with `runRedeem` of cmd/issuer/main.go at a concrete request.
use stablecoin_x402_gateway.Base.{◌≡◌, refl, true, none, some, []}
use stablecoin_x402_gateway.Base.Int.{pos, ◌+ℤ◌, ◌-ℤ◌, wrap64}
use stablecoin_x402_gateway.Base.Dict.{lookup}
use stablecoin_x402_gateway.Base.Decimal.{integer_text, digits_text, digit_char}
use stablecoin_x402_gateway.Base.Text.{set_string}
use stablecoin_x402_gateway.Base.Hex.{
  read_hex32, bytes32_text, prefixed_hex, encode_hex, hex_char, to_bytes, from_bytes, decode_hex,
  trim_0x, hex_value,
}
use stablecoin_x402_gateway.Mandate.{recover712, lower_v}
use stablecoin_x402_gateway.Wallet.{
  bound_nonce, recover_receive_signer, recover_struct, split_signature, take, drop,
}
use stablecoin_x402_gateway.Agent.{signed_payload, wire_authorization, payment_authorization}
use stablecoin_x402_gateway.Journal.{written}
use stablecoin_x402_gateway.Reserve.{Reserve, append_movement, put_movement, entry_of}
use stablecoin_x402_gateway.Redeem.{
  RedemptionRequestJson, Issuer, redeemed, run_redeem, read_request, parse_authorization,
  redeem_read, redeem_split, check_signer, collect_and_burn, record_withdrawal, after_append,
}
use stablecoin_x402_gateway.Redeem.Accounted.{IsAccounted, run_redeem-IsAccounted}
use stablecoin_x402_gateway.Tests.Honest.{honest}
use stablecoin_x402_gateway.Tests.Payments.{sent}

abbrev request : RedemptionRequestJson
request = record { authorization = sent.payload.authorization; signature = sent.payload.signature }

abbrev issuer : Issuer
issuer = record {
  address = 3;
  domain_separator = some 77;
  now = 1_020;
  succeeds = λ call. true;
  opens = true;
  write = written;
}

abbrev funded : Reserve
funded = record { lines = []; tail = none; total = pos 500 }

run_redeem-IsAccounted_example :
    IsAccounted honest issuer request funded (run_redeem honest issuer request funded)
run_redeem-IsAccounted_example = run_redeem-IsAccounted honest issuer request funded

redeemed_fifty :
    ((run_redeem honest issuer request funded).stage ≡ redeemed)
    × ((run_redeem honest issuer request funded).ledger.total ≡ pos 450)
unfolding run_redeem read_request parse_authorization redeem_read redeem_split check_signer
    collect_and_burn record_withdrawal after_append append_movement put_movement entry_of
    integer_text digits_text set_string recover_receive_signer recover_struct recover712 lower_v
    split_signature take drop from_bytes decode_hex trim_0x hex_value signed_payload
    wire_authorization payment_authorization bound_nonce bytes32_text prefixed_hex encode_hex
    hex_char to_bytes read_hex32 digit_char wrap64 lookup ◌-ℤ◌ ◌+ℤ◌
redeemed_fifty = (refl, refl)
