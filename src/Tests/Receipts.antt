-- ===== src/Tests/Receipts.antt =====
-- A receipt at a concrete settlement.
use stablecoin_x402_gateway.Base.{◌≡◌, refl, some, ◌>>=◌, arith}
use stablecoin_x402_gateway.Base.Int.{pos}
use stablecoin_x402_gateway.Base.Text.{set_string}
use stablecoin_x402_gateway.Wallet.{raise_v}
use stablecoin_x402_gateway.Receipt.{
  Receipt, after_colon, chain_id_from_network, sign_receipt, to_json, to_receipt, verify_receipt,
}
use stablecoin_x402_gateway.Receipt.Wire.{to_receipt-verified}
use stablecoin_x402_gateway.Tests.Sample.{bytes}
use stablecoin_x402_gateway.Tests.Honest.{honest, honest_wallet, honest-ReadsTexts, honest-Recovers}

abbrev sold : Receipt
sold = record {
  receipt_id = 500;
  network = "eip155:1337";
  resource = "http://shop/report";
  payer = 2;
  pay_to = 3;
  amount = some (pos 50);
  settlement_tx = 900;
  delivery_tx = 0;
  mandate_id = 9;
  delegator = 1;
  issued_at = pos 1_020;
}

sold_signature : sign_receipt honest honest_wallet sold ≡ some (bytes 64 28)
unfolding sign_receipt chain_id_from_network after_colon set_string raise_v
sold_signature = refl

to_receipt-verified_example :
    (to_receipt honest (to_json honest sold) ≡ some sold)
    × ((to_receipt honest (to_json honest sold) >>= λ q. verify_receipt honest q (bytes 64 28))
        ≡ some 2)
to_receipt-verified_example =
    to_receipt-verified honest honest_wallet sold (pos 50) (bytes 64 28) honest-ReadsTexts
      honest-Recovers refl
      (record {
        receipt_id = omega arith;
        payer = omega arith;
        pay_to = omega arith;
        settlement_tx = omega arith;
        delivery_tx = omega arith;
        mandate_id = omega arith;
        delegator = omega arith;
      })
      sold_signature
