-- ===== src/Policy/Laws/Tables.antt =====
-- Decision tables: which rule wins, and what a loaded table can answer.
use stablecoin_x402_gateway.Base.{
  String, ◌≤◌, ◌≡◌, refl, Bool, true, false, some, List, [], ◌∷◌, ◌++◌, arith, All, string_eq, ◌↔◌,
  inl, inr, Option-cases,
}
use stablecoin_x402_gateway.Policy.Context.{Action, Stage, stage_number}
use stablecoin_x402_gateway.Policy.Table.{
  RuleFactors, CompiledRule, DecisionTable, RawRule, RawTable, matches, match_rules, table_match,
  compile_rule, compile_rules, load_table, accept_decision,
}
use stablecoin_x402_gateway.Base.Int.{ℤ, ◌≤ℤ◌}
use text.Mathlib.TextEquality.{eq_iff}

match_rules_first :
    (before : List CompiledRule) (r : CompiledRule) (after : List CompiledRule) (f : RuleFactors)
    (d : String)
    → All (λ q. matches q f ≡ false) before
    → matches r f ≡ true
    → match_rules (before ++ r ∷ after) f d ≡ r.outcome
unfolding match_rules
match_rules_first [] r after f d h e = ground arith
match_rules_first (q ∷ before) r after f d h e =
    ground (arith, match_rules_first before r after f d h.1 e)

match_rules_none :
    (rules : List CompiledRule) (f : RuleFactors) (d : String)
    → All (λ q. matches q f ≡ false) rules
    → match_rules rules f d ≡ d
unfolding match_rules
match_rules_none [] f d h = refl
match_rules_none (q ∷ rules) f d h = ground (arith, match_rules_none rules f d h.1)

-- The first rule that matches gives the outcome, and the default stands where none matches.
pub table_match_lem :
    (before : List CompiledRule) (r : CompiledRule) (after : List CompiledRule) (d : String)
    (f : RuleFactors)
    → All (λ q. matches q f ≡ false) before
    → (matches r f ≡ true
        → table_match (record { rules = before ++ r ∷ after; fallback = d }) f ≡ r.outcome)
      × (table_match (record { rules = before; fallback = d }) f ≡ d)
unfolding table_match
table_match_lem before r after d f h =
    (match_rules_first before r after f d h, match_rules_none before f d h)

compile_rule-outcome :
    (valid : String → Bool) (raw : RawRule) (r : CompiledRule)
    → compile_rule valid raw ≡ some r
    → valid r.outcome ≡ true
unfolding compile_rule
compile_rule-outcome valid raw r h = ground arith

compile_rules-cons :
    (valid : String → Bool) (raw : RawRule) (raws : List RawRule) (rules : List CompiledRule)
    → compile_rules valid (raw ∷ raws) ≡ some rules
    → (r : CompiledRule) × (rs : List CompiledRule) × (compile_rule valid raw ≡ some r)
      × (compile_rules valid raws ≡ some rs)
      × (rules ≡ r ∷ rs)
unfolding compile_rules
compile_rules-cons valid raw raws rules h = ground arith

match_rules-valid :
    (valid : String → Bool) (raws : List RawRule) (rules : List CompiledRule) (f : RuleFactors)
    (d : String)
    → compile_rules valid raws ≡ some rules
    → valid d ≡ true
    → valid (match_rules rules f d) ≡ true
unfolding compile_rules match_rules
match_rules-valid valid [] rules f d h k = ground arith
match_rules-valid valid (raw ∷ raws) rules f d h k =
    let (r, rs, e, es, shape) = compile_rules-cons valid raw raws rules h in
    rw shape
      (ground (arith, compile_rule-outcome valid raw r e, match_rules-valid valid raws rs f d es k))

-- What a loaded table answers is an outcome that its loader allows.
pub load_table-valid :
    (valid : String → Bool) (raw : RawTable) (t : DecisionTable) (f : RuleFactors)
    → load_table raw valid ≡ some t
    → valid (table_match t f) ≡ true
unfolding load_table table_match
load_table-valid valid raw t f h = elim (Option-cases (compile_rules valid raw.rules)) [
  | inl bad ↦ ground arith
  | inr (rules, e) ↦ ground (arith, match_rules-valid valid raw.rules rules f raw.fallback e)
]

-- The decision for an outcome approves exactly at "approve".
pub accept_decision-approve :
    (outcome : String) → ((accept_decision outcome).action ≡ Action.approve) ↔ (outcome ≡ "approve")
unfolding accept_decision
accept_decision-approve outcome = (
  (λ h. ground (arith, eq_iff outcome "approve")),
  (λ h. ground (arith, eq_iff outcome "approve")),
)

-- A rule that matches has every bound kept.
pub matches_bounds :
    (r : CompiledRule) (f : RuleFactors)
    → matches r f ≡ true
    → ((b : ℤ) → r.amount_min ≡ some b → b ≤ℤ f.amount)
      × ((b : ℤ) → r.amount_max ≡ some b → f.amount ≤ℤ b)
      × ((b : Stage) → r.stage_at_least ≡ some b → stage_number b ≤ stage_number f.stage)
      × ((b : ℤ) → r.asks_max ≡ some b → f.asks ≤ℤ b)
unfolding matches
matches_bounds r f h =
    (λ b e. ground arith, λ b e. ground arith, λ b e. ground arith, λ b e. ground arith)
