-- ===== src/Tests/Sample.antt =====
-- A stand-in for go-ethereum, and a signed mandate with the payment that it is carried by.
use stablecoin_x402_gateway.Base.{
  ℕ, zero, suc, ◌+◌, String, true, false, Option, none, some, List, [], ◌∷◌, string_eq, ◌==◌,
  if◌then◌else◌,
}
use stablecoin_x402_gateway.Base.Int.{pos, ◌+ℤ◌}
use stablecoin_x402_gateway.Base.Float.{finite, float_gt}
use stablecoin_x402_gateway.Eth.{Eth, parse_bytes32}
use stablecoin_x402_gateway.Wire.{
  MandateJson, SignedMandateJson, PaymentPayload, PaymentRequirements,
}
use stablecoin_x402_gateway.Mandate.{
  Mandate, to_mandate, verify_mandate, recover712, payee_allowed, resource_allowed,
  contains_address, prefix_allowed, exceeds_cap,
}
use stablecoin_x402_gateway.Base.Text.{set_string, has_prefix}
use stablecoin_x402_gateway.Base.Dict.{lookup, insert, erase}
use stablecoin_x402_gateway.Accounts.{
  account_of, window_dur, cutoff, max_window, is_recent, reserve, reserve_account, commit,
  commit_account, release, release_account, committed_amount, committed_count, prune, keep_since,
  over_budget, over_rate, reserved_amount, sum_reserved, sum_since, count_since,
}
use stablecoin_x402_gateway.Policy.Entitled.{entitled, is_started, is_unexpired, is_revoked}
use stablecoin_x402_gateway.Policy.Delegated.{
  confirmation_approves, over_limit, after_reserve, decide_stage, decide_windows, decide_limits,
  mandate_decide, settled_payment, mandate_settled,
}
use stablecoin_x402_gateway.Policy.Table.{table_decide, table_match, match_rules, matches}
use stablecoin_x402_gateway.Policy.Readers.{identity_decide, eligibility_decide}
use stablecoin_x402_gateway.Policy.Chain.{rule_decide, chain_decide}
use stablecoin_x402_gateway.Policy.Context.{
  PaymentContext, Stage, payment_amount, payment_nonce, payload_nonce, always_verify,
}
use stablecoin_x402_gateway.Policy.State.{MandatePolicy, on_history}

abbrev pub bytes : ℕ → ℕ → List ℕ
bytes zero last = last ∷ []
bytes (suc n) last = 0 ∷ bytes n last

abbrev sum_words : List ℕ → ℕ
sum_words [] = 0
sum_words (w ∷ ws) = w + sum_words ws

-- Every signature is the delegator's.
abbrev pub sample_eth : Eth
sample_eth = record {
  hex_to_address = λ s. if s == "delegator" then 1 else if s == "agent" then 2 else 3;
  is_hex_address = λ s. true;
  address_hex = λ a. "agent";
  hash_hex = λ h. "hash";
  hex_to_hash = λ s. 77;
  from_hex = λ s.
      if s == "signature" then bytes 64 27 else if s == "nonce" then bytes 31 5 else bytes 31 9;
  keccak_words = sum_words;
  keccak_text = λ s. 0;
  keccak_prefixed = λ d h. d + h;
  sig_to_address = λ d s. some 1;
}

abbrev pub wire_mandate : String → String → String → MandateJson
wire_mandate cap budget rate = record {
  delegator = "delegator";
  agent = "agent";
  max_amount_per_payment = cap;
  allowed_payees = "payee" ∷ [];
  allowed_resources = "http://shop" ∷ [];
  valid_after = "0";
  valid_before = "9999999999";
  budget_amount = budget;
  budget_window_seconds = "3600";
  max_payments_per_window = rate;
  rate_window_seconds = "60";
  mandate_id = "mandate";
}

abbrev pub signed_mandate : String → String → String → SignedMandateJson
signed_mandate cap budget rate = record {
  mandate = wire_mandate cap budget rate;
  signature = "signature";
}

abbrev pub payload : Option SignedMandateJson → String → PaymentPayload
payload m value = record {
  x402_version = pos 1;
  scheme = "exact";
  network = "eip155:1337";
  payload = record {
    signature = "signature";
    authorization = record {
      sender = "agent";
      recipient = "payee";
      value = value;
      valid_after = "0";
      valid_before = "9999999999";
      nonce = "nonce";
    };
    nonce_seed = "";
  };
  mandate = m;
  confirmation = none;
  session = none;
}

abbrev pub requirements : PaymentRequirements
requirements = record {
  scheme = "exact";
  network = "eip155:1337";
  max_amount_required = "50";
  resource = "http://shop/report";
  description = "";
  mime_type = "";
  pay_to = "payee";
  max_timeout_seconds = pos 60;
  asset = "token";
  extra = [];
}

abbrev pub context : Option SignedMandateJson → String → PaymentContext
context m value = record {
  payload = payload m value;
  requirements = requirements;
  verification = some (record { is_valid = true; invalid_reason = ""; payer = "agent" });
  history = none;
  stage = Stage.pre_settlement;
  risk_score = finite (pos 0);
}

abbrev pub limited : Mandate
limited = record {
  delegator = 1;
  agent = 2;
  max_amount_per_payment = some (pos 100);
  allowed_payees = 3 ∷ [];
  allowed_resources = "http://shop" ∷ [];
  valid_after = some (pos 0);
  valid_before = some (pos 9999999999);
  budget_amount = some (pos 1000);
  budget_window_seconds = some (pos 3600);
  max_payments_per_window = some (pos 5);
  rate_window_seconds = some (pos 60);
  mandate_id = 9;
}

abbrev pub mandate_rule : MandatePolicy
mandate_rule = record { chain_id = some (pos 1337); ask_on_exceed = false; defer_above = none }

-- 2023-11-14, in nanoseconds.
abbrev pub noon : ℕ
noon = 1_700_000_000_000_000_000

-- Names to unfold for a run, behind one name each.
unfoldable pub accounts_code : Unit {0}
unfolding account_of reserve reserve_account commit commit_account release release_account
    over_budget over_rate committed_amount committed_count reserved_amount sum_reserved sum_since
    count_since keep_since prune max_window is_recent window_dur cutoff ◌+ℤ◌ lookup insert erase
accounts_code = tt

unfoldable pub policy_code : Unit {0}
unfolding accounts_code entitled to_mandate set_string parse_bytes32 verify_mandate recover712
    payee_allowed resource_allowed contains_address prefix_allowed has_prefix is_started
    is_unexpired is_revoked payment_amount exceeds_cap mandate_decide decide_limits decide_windows
    after_reserve decide_stage over_limit confirmation_approves payment_nonce payload_nonce
    on_history always_verify table_decide table_match match_rules matches rule_decide chain_decide
    float_gt settled_payment mandate_settled identity_decide eligibility_decide
policy_code = tt
