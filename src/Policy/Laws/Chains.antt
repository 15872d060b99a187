-- ===== src/Policy/Laws/Chains.antt =====
-- Chains: when they approve, and what a late refusal leaves behind. Registries: they fail closed.
use stablecoin_x402_gateway.Base.{
  ℕ, ◌≡◌, ◌≢◌, ◌↔◌, refl, ap, true, some, List, [], ◌∷◌, arith, nat_eq, string_eq, inl, inr,
  Option-cases,
}
use stablecoin_x402_gateway.Eth.{Eth}
use stablecoin_x402_gateway.Wire.{VerifyResult}
use stablecoin_x402_gateway.Policy.Context.{Action, Decision, PaymentContext, approval}
use stablecoin_x402_gateway.Policy.Readers.{Reader, identity_decide, eligibility_decide}
use stablecoin_x402_gateway.Policy.State.{PolicyState}
use stablecoin_x402_gateway.Policy.Chain.{Rule, rule_decide, chain_decide}
use text.Mathlib.TextEquality.{eq_iff}

-- Each rule approves, in the state that the rules before it left.
abbrev pub AllApprove : Eth → List Rule → ℕ → PaymentContext → PolicyState → Type 0
AllApprove eth [] now pc s = Unit
AllApprove eth (r ∷ rs) now pc s =
    ((rule_decide eth r now pc s).0.action ≡ Action.approve)
    × AllApprove eth rs now pc (rule_decide eth r now pc s).1

chain_approves :
    (eth : Eth) (rs : List Rule) (now : ℕ) (pc : PaymentContext) (s : PolicyState)
    → AllApprove eth rs now pc s
    → chain_decide eth rs now pc s ≡ (approval, (chain_decide eth rs now pc s).1)
unfolding chain_decide
chain_approves eth [] now pc s h = refl
chain_approves eth (r ∷ rs) now pc s h =
    ground (arith, chain_approves eth rs now pc (rule_decide eth r now pc s).1 h.1)

chain_approved :
    (eth : Eth) (rs : List Rule) (now : ℕ) (pc : PaymentContext) (s : PolicyState)
    → (chain_decide eth rs now pc s).0.action ≡ Action.approve
    → AllApprove eth rs now pc s
unfolding chain_decide
chain_approved eth [] now pc s h = tt
chain_approved eth (r ∷ rs) now pc s h =
    ground (arith, chain_approved eth rs now pc (rule_decide eth r now pc s).1)

-- A chain approves exactly when each of its rules does, in order.
pub chain_decide-approve :
    (eth : Eth) (rs : List Rule) (now : ℕ) (pc : PaymentContext) (s : PolicyState)
    → ((chain_decide eth rs now pc s).0.action ≡ Action.approve) ↔ AllApprove eth rs now pc s
chain_decide-approve eth rs now pc s = (
  chain_approved eth rs now pc s,
  λ h. ap (λ (x : Decision × PolicyState). x.0.action) (chain_approves eth rs now pc s h),
)

-- A verified payer whose lookup succeeds and says yes.
abbrev pub IsConfirmedBy : Eth → Reader → PaymentContext → Type 0
IsConfirmedBy eth registry pc =
    (v : VerifyResult) × (pc.verification ≡ some v)
    × (v.payer ≢ "")
    × (registry (eth.hex_to_address v.payer) ≡ some true)

identity_decide-approve :
    (eth : Eth) (registry : Reader) (pc : PaymentContext)
    → ((identity_decide eth registry pc).action ≡ Action.approve) ↔ (
        (v : VerifyResult) × (pc.verification ≡ some v)
        × (v.payer ≢ "")
        × (registry (eth.hex_to_address v.payer) ≡ some true))
unfolding identity_decide
identity_decide-approve eth registry pc = (forward, backward)
  where
    forward :
        (identity_decide eth registry pc).action ≡ Action.approve
        → (v : VerifyResult) × (pc.verification ≡ some v)
          × (v.payer ≢ "")
          × (registry (eth.hex_to_address v.payer) ≡ some true)
    forward h = elim (Option-cases pc.verification) [
      | inl absent ↦ absurd (ground arith)
      | inr (v, e) ↦ (v, e, λ q. ground (arith, eq_iff v.payer ""), ground arith)
    ]

    backward :
        (v : VerifyResult) × (pc.verification ≡ some v)
          × (v.payer ≢ "")
          × (registry (eth.hex_to_address v.payer) ≡ some true)
        → (identity_decide eth registry pc).action ≡ Action.approve
    backward (v, e, named, registered) = ground (arith, eq_iff v.payer "")

eligibility_decide-approve :
    (eth : Eth) (registry : Reader) (pc : PaymentContext)
    → ((eligibility_decide eth registry pc).action ≡ Action.approve) ↔ (
        (v : VerifyResult) × (pc.verification ≡ some v)
        × (v.payer ≢ "")
        × (registry (eth.hex_to_address v.payer) ≡ some true))
unfolding eligibility_decide
eligibility_decide-approve eth registry pc = (forward, backward)
  where
    forward :
        (eligibility_decide eth registry pc).action ≡ Action.approve
        → (v : VerifyResult) × (pc.verification ≡ some v)
          × (v.payer ≢ "")
          × (registry (eth.hex_to_address v.payer) ≡ some true)
    forward h = elim (Option-cases pc.verification) [
      | inl absent ↦ absurd (ground arith)
      | inr (v, e) ↦ (v, e, λ q. ground (arith, eq_iff v.payer ""), ground arith)
    ]

    backward :
        (v : VerifyResult) × (pc.verification ≡ some v)
          × (v.payer ≢ "")
          × (registry (eth.hex_to_address v.payer) ≡ some true)
        → (eligibility_decide eth registry pc).action ≡ Action.approve
    backward (v, e, named, registered) = ground (arith, eq_iff v.payer "")

-- The identity policy and the eligibility policy fail closed: each approves exactly a verified payer
-- whose lookup in its registry succeeds and says yes.
pub registry_decide-approve :
    (eth : Eth) (registry : Reader) (pc : PaymentContext)
    → (((identity_decide eth registry pc).action ≡ Action.approve) ↔ IsConfirmedBy eth registry pc)
      × (((eligibility_decide eth registry pc).action ≡ Action.approve)
          ↔ IsConfirmedBy eth registry pc)
registry_decide-approve eth registry pc =
    (identity_decide-approve eth registry pc, eligibility_decide-approve eth registry pc)
