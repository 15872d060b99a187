-- ===== src/Gateway/Decisions.antt =====
-- The decision and revocation entries of the journal: x402/gateway.go `recordDecision`,
-- `recordRevocation`, `RevokeMandate`.
use stablecoin_x402_gateway.Base.{
  ℕ, String, Bool, true, false, Option, none, some, if◌then◌else◌, ◌>>=◌,
}
use Prim.Native.String.{◌++◌}
use stablecoin_x402_gateway.Base.Int.{ℤ, pos}
use stablecoin_x402_gateway.Base.Decimal.{integer_text}
use stablecoin_x402_gateway.Base.Hex.{bytes32_text}
use stablecoin_x402_gateway.Codes.{code_text}
use stablecoin_x402_gateway.Eth.{parse_bytes32}
use stablecoin_x402_gateway.Wire.{RevocationJson}
use stablecoin_x402_gateway.Mandate.{verify_revocation}
use stablecoin_x402_gateway.Journal.{JournalEntry, DecisionRecord}
use stablecoin_x402_gateway.Policy.Context.{
  Action, Decision, PaymentContext, payment_amount, payload_nonce, stage_number,
}
use stablecoin_x402_gateway.Policy.History.{unix}
use stablecoin_x402_gateway.Policy.Chain.{mandate_policy}
use stablecoin_x402_gateway.Policy.State.{revoke}
use stablecoin_x402_gateway.Gateway.Defs.{
  Gateway, GatewayState, World, policy_of, with_policy_state, journal_append,
}

-- `type Action int`: the constants are numbered in their order.
unfoldable pub action_number : Action → ℕ
action_number Action.reject = 0
action_number Action.approve = 1
action_number Action.defer = 2
action_number Action.ask = 3
action_number Action.require_bond = 4

-- The nonce of an unreadable payload is zero.
abbrev pub nonce_or_zero : Option ℕ → ℕ
nonce_or_zero none = 0
nonce_or_zero (some n) = n

abbrev pub amount_text : Option ℤ → String
amount_text none = "0"
amount_text (some a) = integer_text a

abbrev pub declared_mandate_id : PaymentContext → String
declared_mandate_id pc = elim pc.payload.mandate [
  | none ↦ ""
  | some signed ↦ signed.mandate.mandate_id
]

unfoldable pub decision_record : Gateway → PaymentContext → Decision → Bool → DecisionRecord
unfolding action_number code_text
decision_record g pc d settled = record {
  nonce = bytes32_text (nonce_or_zero (payload_nonce g.eth pc.payload));
  amount = amount_text (payment_amount pc);
  risk_score = pc.risk_score;
  stage = pos (stage_number pc.stage);
  asks_so_far = elim pc.history [ none ↦ pos 0 | some h ↦ pos h.asks ];
  mandate_id = declared_mandate_id pc;
  action = pos (action_number d.action);
  code = code_text d.code;
  settled = settled;
}

unfoldable pub decision_entry : Gateway → ℕ → PaymentContext → Decision → Bool → JournalEntry
unfolding decision_record
decision_entry g now pc d settled =
    let nonce_hex = bytes32_text (nonce_or_zero (payload_nonce g.eth pc.payload)) in
    record {
      id = nonce_hex ++ (if settled then ":decision:settled" else ":decision");
      payer = elim pc.verification [ none ↦ "" | some v ↦ v.payer ];
      amount = amount_text (payment_amount pc);
      tx_hash = "";
      network = g.network;
      at = pos (unix now);
      kind = "decision";
      receipt = none;
      decision = some (decision_record g pc d settled);
      revocation = none;
    }

-- `recordDecision`: a failed write is only logged.
unfoldable pub record_decision :
    Gateway → World → PaymentContext → Decision → Bool → GatewayState → GatewayState
unfolding decision_entry journal_append
record_decision g w pc d settled s = (journal_append w (decision_entry g w.now pc d settled) s).1

unfoldable pub revocation_entry : Gateway → ℕ → String → ℕ → String → JournalEntry
revocation_entry g now mandate_id delegator signature = record {
  id = mandate_id ++ ":revocation";
  payer = "";
  amount = "";
  tx_hash = "";
  network = g.network;
  at = pos (unix now);
  kind = "revocation";
  receipt = none;
  decision = none;
  revocation = some (record {
    mandate_id = mandate_id;
    delegator = g.eth.address_hex delegator;
    signature = signature;
  });
}

unfoldable pub record_revocation :
    Gateway → World → String → ℕ → String → GatewayState → GatewayState
unfolding revocation_entry journal_append
record_revocation g w mandate_id delegator signature s =
    (journal_append w (revocation_entry g w.now mandate_id delegator signature) s).1

-- The mandate id and the delegator of a revocation that verifies.
unfoldable pub revoked_mandate : Gateway → RevocationJson → Option (ℕ × ℕ)
unfolding mandate_policy
revoked_mandate g rev = do
  p ← mandate_policy (policy_of g)
  mandate_id ← parse_bytes32 g.eth rev.mandate_id
  delegator ← verify_revocation g.eth mandate_id (g.eth.from_hex rev.signature) p.chain_id
  some (mandate_id, delegator)

-- `RevokeMandate`: whether it does not fail.
unfoldable pub revoke_mandate :
    Gateway → World → RevocationJson → GatewayState → Bool × GatewayState
unfolding revoked_mandate record_revocation revoke
revoke_mandate g w rev s = elim (revoked_mandate g rev) [
  | none ↦ (false, s)
  | some (mandate_id, delegator) ↦ (
    true,
    record_revocation g w rev.mandate_id delegator rev.signature
        (with_policy_state (revoke delegator mandate_id s.policy_state) s),
  )
]
