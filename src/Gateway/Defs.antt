-- ===== src/Gateway/Defs.antt =====
-- The gateway of x402/gateway.go: its configuration, its state, and what one request meets.
use stablecoin_x402_gateway.Base.{
  ℕ, ◌+◌, ◌/◌, String, Bool, true, false, string_eq, ◌==◌, Option, none, some, List, [], ◌∷◌, ◌++◌,
  nat_beq, if◌then◌else◌,
}
use stablecoin_x402_gateway.Base.Int.{ℤ, pos, negsuc, eqb_ℤ, neg}
use stablecoin_x402_gateway.Base.Dict.{Dict, insert}
use stablecoin_x402_gateway.Base.Decimal.{integer_text}
use stablecoin_x402_gateway.Base.Hex.{read_hex32}
use stablecoin_x402_gateway.Base.Float.{Float64}
use stablecoin_x402_gateway.Codes.{ErrorCode, nonce_not_bound}
use stablecoin_x402_gateway.Eth.{Eth}
use stablecoin_x402_gateway.Wire.{
  PaymentPayload, PaymentRequirements, VerifyResult, AskRequest, ConfirmationJson,
}
use stablecoin_x402_gateway.Wallet.{Wallet, bound_nonce}
use stablecoin_x402_gateway.Facilitator.{Answer, SettleResult}
use stablecoin_x402_gateway.Journal.{Journal, JournalEntry, WriteOutcome, append}
use stablecoin_x402_gateway.Policy.Context.{
  Action, Decision, PaymentContext, code_for_action, payload_nonce,
}
use stablecoin_x402_gateway.Policy.Chain.{Policy, Rule, mandate_policy}
use stablecoin_x402_gateway.Policy.State.{PolicyState, delegator_history}

pub record Gateway : Type 0 where
  pub eth : Eth
  pub token_address : ℕ
  pub pay_to : ℕ
  pub price : ℤ
  pub network : String
  pub timeout : ℤ
  pub dvp_address : ℕ
  pub require_bound_nonce : Bool
  pub policy : Option Policy
  pub scorer : Option (PaymentContext → Float64)
  pub confirm_depth : ℕ
  pub has_deliverer : Bool
  pub has_refunder : Bool
  pub sessions_enabled : Bool
  pub receipt_key : Option Wallet

pub record SettlementRecord : Type 0 where
  pub payer : ℕ
  pub amount : Option ℤ
  pub tx_hash : ℕ
  pub time : ℕ
  pub delivery_tx : ℕ

-- `(*big.Int).String`, where nil is `none`.
unfoldable pub big_text : Option ℤ → String
big_text none = "<nil>"
big_text (some a) = integer_text a

-- `deferredSettlement`
pub record Deferred : Type 0 where
  pub settlement : SettlementRecord
  pub submitted_block : ℕ

-- `paymentSession`. The settled flag goes with the session's removal where the handler removes it.
pub record PaymentSession : Type 0 where
  pub payload : PaymentPayload
  pub reqs : PaymentRequirements
  pub pc : PaymentContext
  pub payer : ℕ
  pub budget : ℤ
  pub spent : ℤ
  pub valid_before : ℤ
  pub settled : Bool

-- The calls that leave the gateway and change something outside, in their order.
pub data Call : Type 0 where
  settle_call : PaymentPayload → Call
  deliver_call : ℕ → Call
  refund_call : ℕ → Option ℤ → Call

pub record GatewayState : Type 0 where
  pub journal : Option Journal
  pub settlements : List SettlementRecord
  pub in_flight : Dict ℕ Deferred
  pub sessions : Dict String PaymentSession
  pub policy_state : PolicyState
  pub calls : List Call

-- What one request meets: the clock, the facilitator's answers, those of the deliverer, the
-- refunder and the backend, what the write of each journal entry does, and a new session's or receipt's id.
pub record World : Type 0 where
  pub now : ℕ
  pub verify : PaymentPayload → PaymentRequirements → Answer VerifyResult
  pub settle : PaymentPayload → PaymentRequirements → Answer SettleResult
  pub deliver : ℕ → Option ℕ
  pub refund : ℕ → Option ℤ → Option ℕ
  pub head : Option ℕ
  pub receipt_block : ℕ → Option ℕ
  pub write : String → WriteOutcome
  pub session_id : Option String
  pub receipt_id : Option ℕ

-- A `none` reason is a text that `Sprintf` builds.
pub record Failure : Type 0 where
  pub code : ErrorCode
  pub reason : Option String
  pub ask : Option AskRequest

abbrev pub failure : ErrorCode → Option String → Failure
failure code reason = record { code = code; reason = reason; ask = none }

pub data Outcome : Type 0 where
  recorded : SettlementRecord → Outcome
  refused : Failure → Outcome

-- `if fail != nil { return record, fail }`
unfoldable pub on_success :
    (SettlementRecord → GatewayState → Outcome × GatewayState)
    → Outcome × GatewayState
    → Outcome × GatewayState
on_success k (recorded r, s) = k r s
on_success k (refused f, s) = (refused f, s)

abbrev pub log_call : Call → GatewayState → GatewayState
log_call c s = record s { calls = s.calls ++ c ∷ [] }

abbrev pub with_policy_state : PolicyState → GatewayState → GatewayState
with_policy_state ps s = record s { policy_state = ps }

-- `g.policy()`
abbrev pub policy_of : Gateway → Policy
policy_of g = elim g.policy [ none ↦ Policy.single Rule.verify | some p ↦ p ]

-- `g.timeout()`, in nanoseconds, and its `int(….Seconds())`.
unfoldable pub timeout_of : Gateway → ℤ
timeout_of g = if eqb_ℤ g.timeout (pos 0) then pos 60_000_000_000 else g.timeout

unfoldable pub whole_seconds : ℤ → ℤ
whole_seconds (pos n) = pos (n / 1_000_000_000)
whole_seconds (negsuc n) = neg (pos ((n + 1) / 1_000_000_000))

unfoldable pub requirements : Gateway → String → PaymentRequirements
unfolding timeout_of whole_seconds integer_text
requirements g resource =
    let base : Dict String String = ("name", "KRW Test Stablecoin") ∷ ("version", "1") ∷ [] in
    record {
      scheme = "exact";
      network = g.network;
      max_amount_required = integer_text g.price;
      resource = resource;
      description = "x402 protected resource";
      mime_type = "application/json";
      pay_to = g.eth.address_hex g.pay_to;
      max_timeout_seconds = whole_seconds (timeout_of g);
      asset = g.eth.address_hex g.token_address;
      extra =
          if nat_beq g.dvp_address 0
          then base
          else insert "dvp" (g.eth.address_hex g.dvp_address) base;
    }

-- `checkResourceBinding`: `none` lets the payment pass.
unfoldable pub check_bound :
    Gateway → PaymentPayload → PaymentRequirements → Option ℕ → Option ℕ → Option Failure
unfolding bound_nonce
check_bound g p reqs none _ = some (failure nonce_not_bound (some "invalid nonce seed"))
check_bound g p reqs (some seed) none =
    some (failure nonce_not_bound (some "unreadable authorization nonce"))
check_bound g p reqs (some seed) (some n) =
    if nat_beq (bound_nonce g.eth seed reqs.resource) n
    then none
    else some (failure nonce_not_bound (some "authorization nonce is not bound to this resource"))

-- A confirmed payment passes: the confirmation is bound to its resource by its own signature.
unfoldable pub check_seed :
    Gateway → PaymentPayload → PaymentRequirements → Option ConfirmationJson → Option Failure
unfolding check_bound read_hex32
check_seed g p reqs (some _) = none
check_seed g p reqs none =
    if p.payload.nonce_seed == ""
    then if g.require_bound_nonce
      then some
          (failure nonce_not_bound (some "payment is not bound to the resource: no nonce seed"))
      else none
    else check_bound g p reqs (read_hex32 p.payload.nonce_seed) (payload_nonce g.eth p)

unfoldable pub check_resource_binding :
    Gateway → PaymentPayload → PaymentRequirements → Option Failure
unfolding check_seed
check_resource_binding g p reqs = check_seed g p reqs p.confirmation

-- `enrich`
unfoldable pub enrich_history : Gateway → GatewayState → PaymentContext → PaymentContext
unfolding mandate_policy delegator_history
enrich_history g s pc = elim (mandate_policy (policy_of g)) [
  | none ↦ pc
  | some _ ↦ elim pc.payload.mandate [
    | none ↦ pc
    | some signed ↦ record pc {
      history =
          some (delegator_history (g.eth.hex_to_address signed.mandate.delegator) s.policy_state);
    }
  ]
]

unfoldable pub enrich : Gateway → GatewayState → PaymentContext → PaymentContext
unfolding enrich_history
enrich g s pc = elim g.scorer [
  | none ↦ enrich_history g s pc
  | some score ↦ let filled = enrich_history g s pc in record filled { risk_score = score filled }
]

-- `askFromContext`
unfoldable pub ask_from_context : PaymentContext → AskRequest
ask_from_context pc = record {
  mandate_id = elim pc.payload.mandate [ none ↦ "" | some signed ↦ signed.mandate.mandate_id ];
  authorization_nonce = pc.payload.payload.authorization.nonce;
  amount = pc.payload.payload.authorization.value;
  resource = pc.requirements.resource;
}

abbrev pub code_or_default : Decision → ErrorCode
code_or_default d = elim d.code [ none ↦ code_for_action d.action | some code ↦ code ]

abbrev pub invalid_reason_or : String → Option VerifyResult → String
invalid_reason_or text none = text
invalid_reason_or text (some v) = if v.invalid_reason == "" then text else v.invalid_reason

abbrev is_ask : Action → Bool
is_ask Action.ask = true
is_ask _ = false

unfoldable pub refusal : Decision → PaymentContext → Option VerifyResult → Failure
unfolding ask_from_context code_for_action
refusal d pc vr = record {
  code = code_or_default d;
  reason =
      some
        (if d.reason == "" then invalid_reason_or "payment verification failed" vr else d.reason);
  ask = if is_ask d.action then some (ask_from_context pc) else none;
}

-- `if g.Journal != nil { … g.Journal.Append(e) }`: whether it did not fail.
unfoldable pub append_where :
    World → JournalEntry → Option Journal → GatewayState → Bool × GatewayState
append_where w e none s = (true, s)
append_where w e (some j) s =
    let (ok, j') = append e (w.write e.id) j in (ok, record s { journal = some j' })

unfoldable pub journal_append : World → JournalEntry → GatewayState → Bool × GatewayState
unfolding append_where
journal_append w e s = append_where w e s.journal s
