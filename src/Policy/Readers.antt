-- ===== src/Policy/Readers.antt =====
-- x402/policy_identity.go and x402/policy_eligibility.go: a read-only registry, failing closed.
use stablecoin_x402_gateway.Base.{ℕ, Bool, Option, none, some, string_eq, ◌==◌, if◌then◌else◌}
use stablecoin_x402_gateway.Codes.{
  identity_unregistered, identity_check_failed, payer_not_eligible, eligibility_check_failed,
}
use stablecoin_x402_gateway.Eth.{Eth}
use stablecoin_x402_gateway.Policy.Context.{Decision, PaymentContext, approval, rejection}

-- A call of `IsRegistered` or `IsEligible`; `none` is an error.
abbrev pub Reader : Type 0
Reader = ℕ → Option Bool

unfoldable pub identity_decide : Eth → Reader → PaymentContext → Decision
identity_decide eth registry pc = elim pc.verification [
  | none ↦ rejection identity_unregistered "cannot identify the payer to check registration"
  | some v ↦
      if v.payer == ""
      then rejection identity_unregistered "cannot identify the payer to check registration"
      else elim (registry (eth.hex_to_address v.payer)) [
        | none ↦ rejection identity_check_failed "identity registry lookup failed"
        | some registered ↦
            if registered
            then approval
            else rejection identity_unregistered "payer is not a registered agent"
      ]
]

unfoldable pub eligibility_decide : Eth → Reader → PaymentContext → Decision
eligibility_decide eth registry pc = elim pc.verification [
  | none ↦ rejection payer_not_eligible "cannot identify the payer to check eligibility"
  | some v ↦
      if v.payer == ""
      then rejection payer_not_eligible "cannot identify the payer to check eligibility"
      else elim (registry (eth.hex_to_address v.payer)) [
        | none ↦ rejection eligibility_check_failed "eligibility registry lookup failed"
        | some eligible ↦
            if eligible
            then approval
            else rejection payer_not_eligible "payer is not eligible to receive the asset"
      ]
]
