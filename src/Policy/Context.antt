-- ===== src/Policy/Context.antt =====
-- x402/policy.go: actions, decisions, stages and the context that a policy reads.
use stablecoin_x402_gateway.Base.{ℕ, String, Bool, true, false, Option, none, some, if◌then◌else◌}
use stablecoin_x402_gateway.Base.Int.{ℤ}
use stablecoin_x402_gateway.Base.Text.{set_string}
use stablecoin_x402_gateway.Base.Float.{Float64}
use stablecoin_x402_gateway.Eth.{Eth, parse_bytes32}
use stablecoin_x402_gateway.Wire.{PaymentPayload, PaymentRequirements, VerifyResult}
use stablecoin_x402_gateway.Codes.{
  ErrorCode, payment_deferred, confirmation_required, bond_required, policy_rejected,
  verification_failed,
}

pub data Action : Type 0 where
  reject approve defer ask require_bond : Action

pub record Decision : Type 0 where
  pub action : Action
  pub code : Option ErrorCode
  pub reason : String

-- `Decision{Action: ActionApprove}`, and a decision with a code and a reason.
abbrev pub approval : Decision
approval = record { action = Action.approve; code = none; reason = "" }

abbrev pub decision : Action → ErrorCode → String → Decision
decision a code reason = record { action = a; code = some code; reason = reason }

abbrev pub rejection : ErrorCode → String → Decision
rejection = decision Action.reject

abbrev pub is_approve : Action → Bool
is_approve Action.approve = true
is_approve _ = false

pub data Stage : Type 0 where
  pre_settlement submitted confirmed : Stage

-- `type Stage int`: the constants are numbered in their order.
abbrev pub stage_number : Stage → ℕ
stage_number Stage.pre_settlement = 0
stage_number Stage.submitted = 1
stage_number Stage.confirmed = 2

pub record DelegatorHistory : Type 0 where
  pub asks : ℕ
  pub confirmations : ℕ
  pub failures : ℕ
  pub last_asked_at : ℕ

pub record PaymentContext : Type 0 where
  pub payload : PaymentPayload
  pub requirements : PaymentRequirements
  pub verification : Option VerifyResult
  pub history : Option DelegatorHistory
  pub stage : Stage
  pub risk_score : Float64

-- `codeForAction` of x402/errcodes.go.
unfoldable pub code_for_action : Action → ErrorCode
code_for_action Action.defer = payment_deferred
code_for_action Action.ask = confirmation_required
code_for_action Action.require_bond = bond_required
code_for_action _ = policy_rejected

unfoldable pub payment_amount : PaymentContext → Option ℤ
payment_amount pc = set_string pc.payload.payload.authorization.value

-- `paymentNonce`, and `payloadNonce` of x402/gateway.go.
unfoldable pub payload_nonce : Eth → PaymentPayload → Option ℕ
payload_nonce eth p = parse_bytes32 eth p.payload.authorization.nonce

unfoldable pub payment_nonce : Eth → PaymentContext → Option ℕ
payment_nonce eth pc = payload_nonce eth pc.payload

-- `AlwaysVerify`
unfoldable pub always_verify : PaymentContext → Decision
always_verify pc = elim pc.verification [
  | none ↦ rejection verification_failed ""
  | some v ↦ if v.is_valid then approval else rejection verification_failed v.invalid_reason
]
