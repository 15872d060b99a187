-- ===== src/Wire.antt =====
-- The wire types of x402/types.go, x402/mandate.go, x402/confirmation.go and x402/facilitator.go.
use stablecoin_x402_gateway.Base.{String, Bool, Option, List}
use stablecoin_x402_gateway.Base.Int.{ℤ}
use stablecoin_x402_gateway.Base.Dict.{Dict}

pub record PaymentRequirements : Type 0 where
  pub scheme : String
  pub network : String
  pub max_amount_required : String
  pub resource : String
  pub description : String
  pub mime_type : String
  pub pay_to : String
  pub max_timeout_seconds : ℤ
  pub asset : String
  pub extra : Dict String String

pub record AuthorizationJson : Type 0 where
  pub sender : String
  pub recipient : String
  pub value : String
  pub valid_after : String
  pub valid_before : String
  pub nonce : String

pub record ExactPayload : Type 0 where
  pub signature : String
  pub authorization : AuthorizationJson
  pub nonce_seed : String

pub record MandateJson : Type 0 where
  pub delegator : String
  pub agent : String
  pub max_amount_per_payment : String
  pub allowed_payees : List String
  pub allowed_resources : List String
  pub valid_after : String
  pub valid_before : String
  pub budget_amount : String
  pub budget_window_seconds : String
  pub max_payments_per_window : String
  pub rate_window_seconds : String
  pub mandate_id : String

pub record SignedMandateJson : Type 0 where
  pub mandate : MandateJson
  pub signature : String

pub record RevocationJson : Type 0 where
  pub mandate_id : String
  pub signature : String

pub record ConfirmationJson : Type 0 where
  pub mandate_id : String
  pub authorization_nonce : String
  pub amount : String
  pub resource : String
  pub valid_before : String
  pub signature : String

pub record SessionRequest : Type 0 where
  pub is_open : Bool

pub record PaymentPayload : Type 0 where
  pub x402_version : ℤ
  pub scheme : String
  pub network : String
  pub payload : ExactPayload
  pub mandate : Option SignedMandateJson
  pub confirmation : Option ConfirmationJson
  pub session : Option SessionRequest

pub record VerifyResult : Type 0 where
  pub is_valid : Bool
  pub invalid_reason : String
  pub payer : String

pub record AskRequest : Type 0 where
  pub mandate_id : String
  pub authorization_nonce : String
  pub amount : String
  pub resource : String
