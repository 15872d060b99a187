-- ===== src/Policy/Laws/Granted.antt =====
-- What an approval leaves in the accounts, and what a later rule of the chain does not undo.
use stablecoin_x402_gateway.Base.{
  ℕ, ◌≡◌, ◌≢◌, Bool, true, none, some, List, ◌∷◌, arith, nat_eq, beq_self, ◌⊎◌, inl, inr,
  Option-cases, Bool-cases,
}
use stablecoin_x402_gateway.Base.Int.{ℤ}
use stablecoin_x402_gateway.Base.Dict.{lookup, lookup-insert}
use stablecoin_x402_gateway.Codes.{ErrorCode, mandate_budget_exceeded, mandate_rate_exceeded}
use stablecoin_x402_gateway.Eth.{Eth}
use stablecoin_x402_gateway.Mandate.{Mandate, exceeds_cap}
use stablecoin_x402_gateway.Accounts.{
  Spend, Account, Accounts, account_of, reserve, reserve_account,
}
use stablecoin_x402_gateway.Accounts.Each.{account_of-reserve_self}
use stablecoin_x402_gateway.Policy.Context.{
  Action, Stage, PaymentContext, payment_nonce, always_verify,
}
use stablecoin_x402_gateway.Policy.Table.{DecisionTable, table_decide}
use stablecoin_x402_gateway.Policy.State.{MandatePolicy, PolicyState, on_history}
use stablecoin_x402_gateway.Policy.History.{record_confirmed}
use stablecoin_x402_gateway.Policy.Entitled.{Checked, entitled}
use stablecoin_x402_gateway.Policy.Delegated.{
  confirmation_approves, over_limit, after_reserve, decide_windows, decide_limits, mandate_decide,
}
use stablecoin_x402_gateway.Policy.Chain.{Rule, chain_decide, rule_decide}
use stablecoin_x402_gateway.Policy.Laws.Mandates.{account_in}

reserve_code :
    (m : Mandate) (nonce : ℕ) (amount : ℤ) (now : ℕ) (skip : Bool) (a : Accounts) (code : ErrorCode)
    → (reserve m nonce amount now skip a).0 ≡ some code
    → (code ≡ mandate_budget_exceeded) ⊎ (code ≡ mandate_rate_exceeded)
unfolding reserve reserve_account
reserve_code m nonce amount now skip a code h = ground arith

reserve_account_granted :
    (m : Mandate) (nonce : ℕ) (amount : ℤ) (now : ℕ) (skip : Bool) (acc : Account)
    → (reserve_account m nonce amount now skip acc).0 ≡ none
    → lookup nonce (reserve_account m nonce amount now skip acc).1.reserved
      ≡ some (record { at = now; amount = amount })
unfolding reserve_account
reserve_account_granted m nonce amount now skip acc h =
    let r : Spend = record { at = now; amount = amount } in
    ground (arith, lookup-insert nonce nonce r acc.reserved, beq_self nonce)

reserve_granted :
    (m : Mandate) (nonce : ℕ) (amount : ℤ) (now : ℕ) (skip : Bool) (a : Accounts)
    → (reserve m nonce amount now skip a).0 ≡ none
    → lookup nonce (account_of m.mandate_id (reserve m nonce amount now skip a).1).reserved
      ≡ some (record { at = now; amount = amount })
reserve_granted m nonce amount now skip a h = rw account_of-reserve_self (
    reserve_account_granted m nonce amount now skip (account_of m.mandate_id a)
      (unfold reserve in h))

module _ (eth : Eth) (p : MandatePolicy) (now : ℕ) (pc : PaymentContext) (nonce : ℕ)
    (early : pc.stage ≡ Stage.pre_settlement) (read : payment_nonce eth pc ≡ some nonce) where
  decide_windows_granted :
      (m : Mandate) (amount : ℤ) (confirmed : Bool) (s : PolicyState) (a : Accounts)
      → s.accounts ≡ some a
      → (decide_windows eth p now pc m amount confirmed s).0.action ≡ Action.approve
      → lookup nonce
          (account_in m.mandate_id (decide_windows eth p now pc m amount confirmed s).1).reserved
        ≡ some (record { at = now; amount = amount })
  unfolding decide_windows after_reserve over_limit
  decide_windows_granted m amount confirmed s a ea h =
      elim (Option-cases (reserve m nonce amount now confirmed a).0) [
        | inl granted ↦ ground (arith, reserve_granted m nonce amount now confirmed a)
        | inr (code, refused) ↦
            absurd (ground (arith, reserve_code m nonce amount now confirmed a code))
      ]

  decide_limits_granted :
      (m : Mandate) (amount : ℤ) (s : PolicyState) (a : Accounts)
      → s.accounts ≡ some a
      → (decide_limits eth p now pc m amount s).0.action ≡ Action.approve
      → lookup nonce (account_in m.mandate_id (decide_limits eth p now pc m amount s).1).reserved
        ≡ some (record { at = now; amount = amount })
  unfolding decide_limits over_limit on_history
  decide_limits_granted m amount s a ea h = elim (Bool-cases (exceeds_cap m amount)) [
    | inr fits ↦ ground (
      arith,
      decide_windows_granted m amount (confirmation_approves eth p now pc m amount) s a ea,
    )
    | inl over ↦ ground (
      arith,
      decide_windows_granted m amount true (on_history (record_confirmed m.delegator) s) a,
    )
  ]

  -- An approval before settlement leaves the payment reserved under its mandate, at its amount.
  pub mandate_decide_granted :
      (m : Mandate) (amount : ℤ) (s : PolicyState) (a : Accounts)
      → s.accounts ≡ some a
      → entitled eth p now pc s ≡ Checked.passed (m, amount)
      → (mandate_decide eth p now pc s).0.action ≡ Action.approve
      → lookup nonce (account_in m.mandate_id (mandate_decide eth p now pc s).1).reserved
        ≡ some (record { at = now; amount = amount })
  unfolding mandate_decide
  mandate_decide_granted m amount s a ea e h = ground (arith, decide_limits_granted m amount s a ea)

  -- A table behind the mandate policy that does not approve refuses the payment, and the payment
  -- stays reserved under its mandate: the budget is spent by a refused payment.
  pub chain_decide_keeps_reservation :
      (m : Mandate) (amount : ℤ) (s : PolicyState) (a : Accounts) (t : DecisionTable)
      (rest : List Rule)
      → s.accounts ≡ some a
      → (always_verify pc).action ≡ Action.approve
      → entitled eth p now pc s ≡ Checked.passed (m, amount)
      → (mandate_decide eth p now pc s).0.action ≡ Action.approve
      → (table_decide t pc).action ≢ Action.approve
      → let (d, after) =
          chain_decide eth (Rule.verify ∷ Rule.mandate p ∷ Rule.table t ∷ rest) now pc s in
        (d ≡ table_decide t pc)
        × (lookup nonce (account_in m.mandate_id after).reserved
            ≡ some (record { at = now; amount = amount }))
  unfolding chain_decide rule_decide
  chain_decide_keeps_reservation m amount s a t rest ea v e h refuses =
      ground (arith, mandate_decide_granted m amount s a ea e h)
