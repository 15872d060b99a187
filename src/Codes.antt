-- ===== src/Codes.antt =====
-- x402/errcodes.go: the error codes, a constructor for each constant. `none` stands for "".
use stablecoin_x402_gateway.Base.{String, Option, none, some}

pub data ErrorCode : Type 0 where
  payment_required invalid_payment_header verification_failed verification_error : ErrorCode
  identity_unregistered identity_check_failed payer_not_eligible : ErrorCode
  eligibility_check_failed settlement_failed settlement_error delivery_failed : ErrorCode
  session_unknown session_exhausted nonce_not_bound policy_rejected payment_deferred : ErrorCode
  confirmation_required bond_required mandate_missing mandate_invalid mandate_expired : ErrorCode
  mandate_revoked mandate_exceeded mandate_budget_exceeded mandate_rate_exceeded : ErrorCode

-- The constants' values.
unfoldable pub code_text : Option ErrorCode → String
code_text none = ""
code_text (some payment_required) = "payment_required"
code_text (some invalid_payment_header) = "invalid_payment_header"
code_text (some verification_failed) = "verification_failed"
code_text (some verification_error) = "verification_error"
code_text (some identity_unregistered) = "identity_unregistered"
code_text (some identity_check_failed) = "identity_check_failed"
code_text (some payer_not_eligible) = "payer_not_eligible"
code_text (some eligibility_check_failed) = "eligibility_check_failed"
code_text (some settlement_failed) = "settlement_failed"
code_text (some settlement_error) = "settlement_error"
code_text (some delivery_failed) = "delivery_failed"
code_text (some session_unknown) = "session_unknown"
code_text (some session_exhausted) = "session_exhausted"
code_text (some nonce_not_bound) = "nonce_not_bound"
code_text (some policy_rejected) = "policy_rejected"
code_text (some payment_deferred) = "payment_deferred"
code_text (some confirmation_required) = "confirmation_required"
code_text (some bond_required) = "bond_required"
code_text (some mandate_missing) = "mandate_missing"
code_text (some mandate_invalid) = "mandate_invalid"
code_text (some mandate_expired) = "mandate_expired"
code_text (some mandate_revoked) = "mandate_revoked"
code_text (some mandate_exceeded) = "mandate_exceeded"
code_text (some mandate_budget_exceeded) = "mandate_budget_exceeded"
code_text (some mandate_rate_exceeded) = "mandate_rate_exceeded"
