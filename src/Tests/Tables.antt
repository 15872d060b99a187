-- ===== src/Tests/Tables.antt =====
-- Decision tables on the example of x402/policy_table.go.
use stablecoin_x402_gateway.Base.{◌≡◌, refl, true, none, some, [], ◌∷◌}
use stablecoin_x402_gateway.Base.Int.{ℤ, pos}
use stablecoin_x402_gateway.Base.Text.{set_string}
use stablecoin_x402_gateway.Base.Float.{finite, float_gt}
use stablecoin_x402_gateway.Policy.Context.{Stage}
use stablecoin_x402_gateway.Policy.Table.{
  RuleFactors, CompiledRule, DecisionTable, RawTable, matches, table_match, load_table,
  accept_outcomes,
}
use stablecoin_x402_gateway.Policy.Laws.Tables.{table_match_lem, load_table-valid}

-- {"amountMax": "1000", "stageAtLeast": "confirmed", "asksMax": 2} then approve.
abbrev small : CompiledRule
small = record {
  amount_min = none;
  amount_max = some (pos 1000);
  stage_at_least = some Stage.confirmed;
  risk_max = none;
  asks_max = some (pos 2);
  outcome = "approve";
}

-- {"amountMin": "1001"} then ask.
abbrev large : CompiledRule
large = record {
  amount_min = some (pos 1001);
  amount_max = none;
  stage_at_least = none;
  risk_max = none;
  asks_max = none;
  outcome = "ask";
}

abbrev raw : RawTable
raw = record {
  fallback = "reject";
  rules =
      record {
        amount_min = none;
        amount_max = some "1000";
        stage_at_least = some "confirmed";
        risk_max = none;
        asks_max = some (pos 2);
        outcome = "approve";
      }
      ∷ record {
        amount_min = some "1001";
        amount_max = none;
        stage_at_least = none;
        risk_max = none;
        asks_max = none;
        outcome = "ask";
      }
      ∷ [];
}

abbrev loaded : DecisionTable
loaded = record { rules = small ∷ large ∷ []; fallback = "reject" }

abbrev factors : ℤ → RuleFactors
factors amount = record {
  amount = amount;
  stage = Stage.confirmed;
  risk = finite (pos 0);
  asks = pos 0;
}

load-raw : load_table raw accept_outcomes ≡ some loaded
unfolding load_table set_string float_gt accept_outcomes
load-raw = refl

load_table-valid_example : accept_outcomes (table_match loaded (factors (pos 5000))) ≡ true
load_table-valid_example = load_table-valid accept_outcomes raw loaded (factors (pos 5000)) load-raw

table_match_lem_example :
    (matches large (factors (pos 5000)) ≡ true → table_match loaded (factors (pos 5000)) ≡ "ask")
    × (table_match (record { rules = small ∷ []; fallback = "reject" }) (factors (pos 5000))
        ≡ "reject")
unfolding matches
table_match_lem_example =
    table_match_lem (small ∷ []) large [] "reject" (factors (pos 5000)) (refl, tt)
