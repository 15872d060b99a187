-- ===== src/Policy/Table.antt =====
-- x402/policy_table.go: decision tables.
use stablecoin_x402_gateway.Base.{
  ℕ, String, Bool, true, false, not, ◌||◌, Option, none, some, List, [], ◌∷◌, ltb, string_eq, ◌==◌,
  if◌then◌else◌, ◌>>=◌, ◌>>◌, guard,
}
use stablecoin_x402_gateway.Base.Int.{ℤ, pos, ltb_ℤ}
use stablecoin_x402_gateway.Base.Text.{set_string}
use stablecoin_x402_gateway.Base.Float.{Float64, finite, float_gt}
use stablecoin_x402_gateway.Codes.{
  payment_deferred, confirmation_required, bond_required, policy_rejected,
}
use stablecoin_x402_gateway.Policy.Context.{
  Action, Decision, Stage, PaymentContext, approval, decision, rejection, stage_number,
  payment_amount,
}

pub record RuleFactors : Type 0 where
  pub amount : ℤ
  pub stage : Stage
  pub risk : Float64
  pub asks : ℤ

pub record CompiledRule : Type 0 where
  pub amount_min : Option ℤ
  pub amount_max : Option ℤ
  pub stage_at_least : Option Stage
  pub risk_max : Option Float64
  pub asks_max : Option ℤ
  pub outcome : String

pub record DecisionTable : Type 0 where
  pub rules : List CompiledRule
  pub fallback : String

-- A bound that is present, and that the value does not keep.
abbrev pub breaks {ℓ} : {A : Type ℓ} → Option A → (A → Bool) → Bool
breaks none test = false
breaks (some bound) test = test bound

unfoldable pub matches : CompiledRule → RuleFactors → Bool
matches r f =
    if breaks r.amount_min (λ b. ltb_ℤ f.amount b)
    then false
    else if breaks r.amount_max (λ b. ltb_ℤ b f.amount)
    then false
    else if breaks r.stage_at_least (λ b. ltb (stage_number f.stage) (stage_number b))
    then false
    else if breaks r.risk_max (λ b. float_gt f.risk b)
    then false
    else if breaks r.asks_max (λ b. ltb_ℤ b f.asks)
    then false
    else true

unfoldable pub match_rules : List CompiledRule → RuleFactors → String → String
match_rules [] f fallback = fallback
match_rules (r ∷ rs) f fallback =
    let rest = match_rules rs f fallback in if matches r f then r.outcome else rest

unfoldable pub table_match : DecisionTable → RuleFactors → String
unfolding match_rules
table_match t f = match_rules t.rules f t.fallback

-- What the JSON decoder of `loadTable` produces.
pub record RawRule : Type 0 where
  pub amount_min : Option String
  pub amount_max : Option String
  pub stage_at_least : Option String
  pub risk_max : Option Float64
  pub asks_max : Option ℤ
  pub outcome : String

pub record RawTable : Type 0 where
  pub fallback : String
  pub rules : List RawRule

-- An absent bound stays absent; `none` outside is an error.
parse_non_neg_big : Option String → Option (Option ℤ)
parse_non_neg_big none = some none
parse_non_neg_big (some s) = do v ← set_string s; guard (not (ltb_ℤ v (pos 0))); some (some v)

parse_stage : Option String → Option (Option Stage)
parse_stage none = some none
parse_stage (some s) =
    if s == "submitted"
    then some (some Stage.submitted)
    else if s == "confirmed"
    then some (some Stage.confirmed)
    else none

unfoldable pub compile_rule : (String → Bool) → RawRule → Option CompiledRule
unfolding parse_non_neg_big parse_stage
compile_rule valid r = do
  guard (valid r.outcome)
  min ← parse_non_neg_big r.amount_min
  max ← parse_non_neg_big r.amount_max
  stage ← parse_stage r.stage_at_least
  guard (not (breaks r.risk_max (λ b. float_gt (finite (pos 0)) b)))
  guard (not (breaks r.asks_max (λ b. ltb_ℤ b (pos 0))))
  some (record {
    amount_min = min;
    amount_max = max;
    stage_at_least = stage;
    risk_max = r.risk_max;
    asks_max = r.asks_max;
    outcome = r.outcome;
  })

unfoldable pub compile_rules : (String → Bool) → List RawRule → Option (List CompiledRule)
compile_rules valid [] = some []
compile_rules valid (r ∷ rs) = do
  c ← compile_rule valid r
  cs ← compile_rules valid rs
  some (c ∷ cs)

is_empty {ℓ} : {A : Type ℓ} → List A → Bool
is_empty [] = true
is_empty (_ ∷ _) = false

unfoldable pub load_table : RawTable → (String → Bool) → Option DecisionTable
unfolding compile_rules compile_rule is_empty
load_table raw valid = do
  guard (valid raw.fallback)
  guard (not (is_empty raw.rules))
  rules ← compile_rules valid raw.rules
  some (record { rules = rules; fallback = raw.fallback })

unfoldable pub accept_outcomes : String → Bool
accept_outcomes s =
    s == "approve" || s == "reject" || s == "defer" || s == "ask" || s == "require-bond"

unfoldable pub load_table_policy : RawTable → Option DecisionTable
unfolding load_table accept_outcomes
load_table_policy raw = load_table raw accept_outcomes

unfoldable pub accept_decision : String → Decision
accept_decision outcome =
    if outcome == "approve"
    then approval
    else if outcome == "defer"
    then decision Action.defer payment_deferred "deferred by policy table"
    else if outcome == "ask"
    then decision Action.ask confirmation_required "confirmation required by policy table"
    else if outcome == "require-bond"
    then decision Action.require_bond bond_required "bond required by policy table"
    else rejection policy_rejected "rejected by policy table"

-- The amount is the payment's, else the price, else zero.
unfoldable pub table_amount : PaymentContext → ℤ
table_amount pc = elim (payment_amount pc) [
  | some a ↦ a
  | none ↦ elim (set_string pc.requirements.max_amount_required) [ some a ↦ a | none ↦ pos 0 ]
]

unfoldable pub table_decide : DecisionTable → PaymentContext → Decision
unfolding table_amount accept_decision table_match
table_decide t pc =
    let asks : ℕ = elim pc.history [ none ↦ 0 | some h ↦ h.asks ] in
    accept_decision (
      table_match t (record {
        amount = table_amount pc;
        stage = pc.stage;
        risk = pc.risk_score;
        asks = pos asks;
      }))
