-- ===== src/Tests/Policies.antt =====
-- The policies on concrete payments.
use stablecoin_x402_gateway.Base.{
  ◌≡◌, ◌↔◌, ◌⊎◌, refl, true, false, none, some, List, [], ◌∷◌, arith, nat_eq,
}
use stablecoin_x402_gateway.Base.Int.{ℤ, pos, neg}
use stablecoin_x402_gateway.Base.Dict.{lookup}
use stablecoin_x402_gateway.Accounts.{account_of}
use stablecoin_x402_gateway.Mandate.{Mandate, exceeds_cap}
use stablecoin_x402_gateway.Codes.{mandate_exceeded}
use stablecoin_x402_gateway.Policy.Context.{Action, PaymentContext, rejection}
use stablecoin_x402_gateway.Policy.Table.{DecisionTable, table_decide, accept_decision}
use stablecoin_x402_gateway.Policy.Readers.{identity_decide, eligibility_decide}
use stablecoin_x402_gateway.Policy.State.{new_policy_state}
use stablecoin_x402_gateway.Policy.Delegated.{
  mandate_decide, decide_stage, mandate_settled, confirmation_approves,
}
use stablecoin_x402_gateway.Policy.Chain.{Rule, chain_decide}
use stablecoin_x402_gateway.Policy.Laws.Negated.{with_mandate, mandate_decide-negated}
use stablecoin_x402_gateway.Policy.Laws.Mandates.{
  account_in, IsEntitled, mandate_decide-refusal, mandate_decide-approve,
}
use stablecoin_x402_gateway.Policy.Laws.Reservations.{mandate_settled-failed}
use stablecoin_x402_gateway.Policy.Laws.Granted.{
  mandate_decide_granted, chain_decide_keeps_reservation,
}
use stablecoin_x402_gateway.Policy.Laws.Chains.{
  AllApprove, chain_decide-approve, registry_decide-approve, IsConfirmedBy,
}
use stablecoin_x402_gateway.Tests.Sample.{
  sample_eth, signed_mandate, context, limited, mandate_rule, noon, policy_code,
}

-- 5000 exceed the cap of 100.
decide-over_cap :
    (mandate_decide sample_eth mandate_rule noon
      (context (some (signed_mandate "100" "1000" "5")) "5000")
      new_policy_state).0
    ≡ rejection mandate_exceeded "amount exceeds the per-payment limit"
unfolding policy_code
decide-over_cap = refl

mandate_decide-negated_example :
    (mandate_decide sample_eth mandate_rule noon
      (with_mandate (signed_mandate "-100" "-1000" "-5") (context none "5000"))
      new_policy_state).0
    ≡ decide_stage mandate_rule (context none "5000") (pos 5000)
unfolding policy_code neg
mandate_decide-negated_example =
    mandate_decide-negated sample_eth mandate_rule noon (context none "5000") new_policy_state
      (signed_mandate "100" "1000" "5") (signed_mandate "-100" "-1000" "-5") limited (pos 100)
      (pos 1000) (pos 5) (pos 5000) 5 refl refl refl refl (omega arith) refl (omega arith) refl
      (omega arith) refl refl

mandate_decide-refusal_example :
    account_in 9
      (mandate_decide sample_eth mandate_rule noon
        (context (some (signed_mandate "100" "1000" "5")) "5000")
        new_policy_state).1
    ≡ account_in 9 new_policy_state
unfolding policy_code
mandate_decide-refusal_example =
    mandate_decide-refusal sample_eth mandate_rule noon
      (context (some (signed_mandate "100" "1000" "5")) "5000") new_policy_state 9 (λ e. cc)
      (λ e. cc)

abbrev paid : PaymentContext
paid = context (some (signed_mandate "100" "1000" "5")) "50"

mandate_decide-approve_example :
    (m : Mandate) × (amount : ℤ) × IsEntitled sample_eth mandate_rule noon paid new_policy_state m
      amount
    × ((exceeds_cap m amount ≡ false)
        ⊎ (confirmation_approves sample_eth mandate_rule noon paid m amount ≡ true))
unfolding policy_code
mandate_decide-approve_example =
    mandate_decide-approve sample_eth mandate_rule noon paid new_policy_state refl

mandate_settled-failed_example :
    account_in 9 (
      mandate_settled sample_eth noon paid false
        (mandate_decide sample_eth mandate_rule noon paid new_policy_state).1)
    ≡ account_in 9 new_policy_state
unfolding account_of lookup
mandate_settled-failed_example =
    mandate_settled-failed sample_eth mandate_rule noon paid noon new_policy_state 9
      (λ m nonce e. refl)

mandate_decide_granted_example :
    lookup 5
      (account_in 9 (mandate_decide sample_eth mandate_rule noon paid new_policy_state).1).reserved
    ≡ some (record { at = noon; amount = pos 50 })
unfolding policy_code
mandate_decide_granted_example =
    mandate_decide_granted sample_eth mandate_rule noon paid 5 refl refl limited (pos 50)
      new_policy_state [] refl refl refl

abbrev reject_all : DecisionTable
reject_all = record { rules = []; fallback = "reject" }

chain_decide_keeps_reservation_example :
    let (d, after) =
      chain_decide sample_eth
        (Rule.verify ∷ Rule.mandate mandate_rule ∷ Rule.table reject_all ∷ [])
        noon
        paid
        new_policy_state in
    (d ≡ table_decide reject_all paid)
    × (lookup 5 (account_in 9 after).reserved ≡ some (record { at = noon; amount = pos 50 }))
unfolding policy_code accept_decision
chain_decide_keeps_reservation_example =
    chain_decide_keeps_reservation sample_eth mandate_rule noon paid 5 refl refl limited (pos 50)
      new_policy_state [] reject_all [] refl refl refl refl (λ e. cc)

abbrev registered_chain : List Rule
registered_chain =
    Rule.verify ∷ Rule.identity (λ a. some (nat_eq.beq a 2)) ∷ Rule.mandate mandate_rule ∷ []

chain_decide-approve_example :
    ((chain_decide sample_eth registered_chain noon paid new_policy_state).0.action
      ≡ Action.approve)
    ↔ AllApprove sample_eth registered_chain noon paid new_policy_state
chain_decide-approve_example =
    chain_decide-approve sample_eth registered_chain noon paid new_policy_state

registry_decide-approve_example :
    (((identity_decide sample_eth (λ a. none) paid).action ≡ Action.approve)
      ↔ IsConfirmedBy sample_eth (λ a. none) paid)
    × (((eligibility_decide sample_eth (λ a. none) paid).action ≡ Action.approve)
        ↔ IsConfirmedBy sample_eth (λ a. none) paid)
registry_decide-approve_example = registry_decide-approve sample_eth (λ a. none) paid
