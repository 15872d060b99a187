-- ===== src/Mandate/Parse.antt =====
-- `(MandateJSON).ToMandate`.
use stablecoin_x402_gateway.Base.{ℕ, String, Option, some, List, [], ◌∷◌, ◌>>=◌, ◌>>◌, guard}
use stablecoin_x402_gateway.Base.Text.{set_string}
use stablecoin_x402_gateway.Eth.{Eth, parse_bytes32}
use stablecoin_x402_gateway.Wire.{MandateJson}
use stablecoin_x402_gateway.Mandate.Hash.{Mandate}

parse_payees : Eth → List String → Option (List ℕ)
parse_payees eth [] = some []
parse_payees eth (p ∷ ps) = do
  guard (eth.is_hex_address p)
  rest ← parse_payees eth ps
  some (eth.hex_to_address p ∷ rest)

-- The source reads the integers by a range over a map: the order decides only which error it names.
unfoldable pub to_mandate : Eth → MandateJson → Option Mandate
unfolding parse_payees
to_mandate eth j = do
  guard (eth.is_hex_address j.delegator)
  guard (eth.is_hex_address j.agent)
  payees ← parse_payees eth j.allowed_payees
  max_amount ← set_string j.max_amount_per_payment
  after ← set_string j.valid_after
  before ← set_string j.valid_before
  budget ← set_string j.budget_amount
  budget_window ← set_string j.budget_window_seconds
  max_payments ← set_string j.max_payments_per_window
  rate_window ← set_string j.rate_window_seconds
  id ← parse_bytes32 eth j.mandate_id
  some (record {
    delegator = eth.hex_to_address j.delegator;
    agent = eth.hex_to_address j.agent;
    max_amount_per_payment = some max_amount;
    allowed_payees = payees;
    allowed_resources = j.allowed_resources;
    valid_after = some after;
    valid_before = some before;
    budget_amount = some budget;
    budget_window_seconds = some budget_window;
    max_payments_per_window = some max_payments;
    rate_window_seconds = some rate_window;
    mandate_id = id;
  })
