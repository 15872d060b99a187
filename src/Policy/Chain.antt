-- ===== src/Policy/Chain.antt =====
-- The `Policy` interface with the repository's implementations, `Chain`, and the notifications of
-- `PaymentSettler`. The mandate policies of one gateway share one state, as its constructor makes it.
use stablecoin_x402_gateway.Base.{ℕ, Bool, Option, none, some, List, [], ◌∷◌, if◌then◌else◌}
use stablecoin_x402_gateway.Eth.{Eth}
use stablecoin_x402_gateway.Policy.Context.{
  Decision, PaymentContext, approval, is_approve, always_verify,
}
use stablecoin_x402_gateway.Policy.Readers.{Reader, identity_decide, eligibility_decide}
use stablecoin_x402_gateway.Policy.Table.{DecisionTable, table_decide}
use stablecoin_x402_gateway.Policy.State.{MandatePolicy, PolicyState}
use stablecoin_x402_gateway.Policy.Delegated.{mandate_decide, mandate_settled}

pub data Rule : Type 0 where
  verify : Rule
  identity eligibility : Reader → Rule
  table : DecisionTable → Rule
  mandate : MandatePolicy → Rule

pub data Policy : Type 0 where
  single : Rule → Policy
  chain : List Rule → Policy

unfoldable pub rule_decide : Eth → Rule → ℕ → PaymentContext → PolicyState → Decision × PolicyState
rule_decide eth Rule.verify now pc s = (always_verify pc, s)
rule_decide eth (Rule.identity r) now pc s = (identity_decide eth r pc, s)
rule_decide eth (Rule.eligibility r) now pc s = (eligibility_decide eth r pc, s)
rule_decide eth (Rule.table t) now pc s = (table_decide t pc, s)
rule_decide eth (Rule.mandate p) now pc s = mandate_decide eth p now pc s

-- The first decision that is no approval ends the chain, with what the rules so far have changed.
unfoldable pub chain_decide :
    Eth → List Rule → ℕ → PaymentContext → PolicyState → Decision × PolicyState
chain_decide eth [] now pc s = (approval, s)
chain_decide eth (r ∷ rs) now pc s =
    let (d, s') = rule_decide eth r now pc s in
    let rest = chain_decide eth rs now pc s' in if is_approve d.action then rest else (d, s')

unfoldable pub policy_decide :
    Eth → Policy → ℕ → PaymentContext → PolicyState → Decision × PolicyState
policy_decide eth (Policy.single r) now pc s = rule_decide eth r now pc s
policy_decide eth (Policy.chain rs) now pc s = chain_decide eth rs now pc s

-- `for _, s := range g.settlers() { s.Settled(pc, ok) }`: only a mandate policy observes.
unfoldable pub rule_settled : Eth → Rule → ℕ → PaymentContext → Bool → PolicyState → PolicyState
rule_settled eth (Rule.mandate p) now pc success s = mandate_settled eth now pc success s
rule_settled eth _ now pc success s = s

unfoldable pub chain_settled :
    Eth → List Rule → ℕ → PaymentContext → Bool → PolicyState → PolicyState
unfolding rule_settled
chain_settled eth [] now pc success s = s
chain_settled eth (r ∷ rs) now pc success s =
    chain_settled eth rs now pc success (rule_settled eth r now pc success s)

unfoldable pub notify : Eth → Policy → ℕ → PaymentContext → Bool → PolicyState → PolicyState
unfolding rule_settled chain_settled
notify eth (Policy.single r) now pc success s = rule_settled eth r now pc success s
notify eth (Policy.chain rs) now pc success s = chain_settled eth rs now pc success s

-- `mandatePolicy`: the first mandate policy, if any.
find_mandate : List Rule → Option MandatePolicy
find_mandate [] = none
find_mandate (Rule.mandate p ∷ rs) = some p
find_mandate (_ ∷ rs) = find_mandate rs

unfoldable pub mandate_policy : Policy → Option MandatePolicy
unfolding find_mandate
mandate_policy (Policy.single (Rule.mandate p)) = some p
mandate_policy (Policy.single _) = none
mandate_policy (Policy.chain rs) = find_mandate rs
