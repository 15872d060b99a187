-- ===== src/Tests/Shop.antt =====
-- A gateway, its surroundings and its state, for the tests of x402/gateway.go and x402/session.go.
use stablecoin_x402_gateway.Base.{true, false, none, some, [], ◌∷◌, string_eq, nat_eq}
use stablecoin_x402_gateway.Base.Int.{pos}
use stablecoin_x402_gateway.Facilitator.{SettleResult, local_verify}
use stablecoin_x402_gateway.Journal.{written, new_journal}
use stablecoin_x402_gateway.Policy.Context.{Stage}
use stablecoin_x402_gateway.Policy.History.{unix}
use stablecoin_x402_gateway.Policy.State.{new_policy_state}
use stablecoin_x402_gateway.Gateway.Defs.{
  Gateway, GatewayState, World, SettlementRecord, PaymentSession,
}
use stablecoin_x402_gateway.Gateway.Deferred.{payment_context}
use stablecoin_x402_gateway.Tests.Honest.{honest, honest_wallet}
use stablecoin_x402_gateway.Tests.Payments.{terms, reads, sent}

abbrev pub shop : Gateway
shop = record {
  eth = honest;
  token_address = 4;
  pay_to = 3;
  price = pos 50;
  network = "eip155:1337";
  timeout = pos 0;
  dvp_address = 0;
  require_bound_nonce = true;
  policy = none;
  scorer = none;
  confirm_depth = 2;
  has_deliverer = true;
  has_refunder = true;
  sessions_enabled = true;
  receipt_key = some honest_wallet;
}

abbrev pub settles : SettleResult
settles = record {
  success = true;
  error_reason = "";
  transaction = "0x0000000000000000000000000000000000000000000000000000000000000384";
  network = "eip155:1337";
  payer = "0x0000000000000000000000000000000000000002";
}

-- 17 minutes past the epoch, in nanoseconds.
abbrev pub good_day : World
good_day = record {
  now = 1_020_000_000_000;
  verify = λ p reqs. local_verify honest reads (unix 1_020_000_000_000) p reqs;
  settle = λ p reqs. some (some settles);
  deliver = λ payer. none;
  refund = λ payer amount. some 901;
  head = some 10;
  receipt_block = λ tx. some 9;
  write = λ id. written;
  session_id = some "s2";
  receipt_id = some 500;
}

abbrev pub bad_day : World
bad_day = record good_day { settle = λ p reqs. none }

abbrev pub half_spent : PaymentSession
half_spent = record {
  payload = sent;
  reqs = terms;
  pc = payment_context sent terms none Stage.pre_settlement;
  payer = 2;
  budget = pos 120;
  spent = pos 50;
  valid_before = pos 9_000;
  settled = false;
}

abbrev pub at_work : GatewayState
at_work = record {
  journal = some (new_journal (record { lines = []; tail = none }));
  settlements = [];
  in_flight = [];
  sessions = ("s1", half_spent) ∷ [];
  policy_state = new_policy_state;
  calls = [];
}

abbrev pub sale : SettlementRecord
sale = record {
  payer = 2;
  amount = some (pos 50);
  tx_hash = 900;
  time = 1_020_500_000_000;
  delivery_tx = 0;
}
