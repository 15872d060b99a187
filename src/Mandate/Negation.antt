-- ===== src/Mandate/Negation.antt =====
-- The hash of a mandate does not see the sign of an integer, and a negative limit is no limit.
use stablecoin_x402_gateway.Base.{ℕ, ◌≡◌, refl, false, Option, none, some, List, arith}
use stablecoin_x402_gateway.Base.Int.{ℤ, pos, ◌≤ℤ◌, neg, abs-neg}
use stablecoin_x402_gateway.Eth.{Eth}
use stablecoin_x402_gateway.Mandate.Hash.{Mandate, u256, struct_hash, verify_mandate}
use stablecoin_x402_gateway.Mandate.Scope.{exceeds_cap}

abbrev pub neg_limit : Option ℤ → Option ℤ
neg_limit none = none
neg_limit (some x) = some (neg x)

-- The mandate with its three limits negated: what a bearer of the signed mandate can send.
abbrev pub negate_limits : Mandate → Mandate
negate_limits m = record m {
  max_amount_per_payment = neg_limit m.max_amount_per_payment;
  budget_amount = neg_limit m.budget_amount;
  max_payments_per_window = neg_limit m.max_payments_per_window;
}

u256-neg_limit : (x : Option ℤ) → u256 (neg_limit x) ≡ u256 x
unfolding u256
u256-neg_limit none = refl
u256-neg_limit (some x) = abs-neg x

struct_hash-negate_limits :
    (eth : Eth) (m : Mandate) → struct_hash eth (negate_limits m) ≡ struct_hash eth m
unfolding struct_hash
struct_hash-negate_limits eth m = cc (
  u256-neg_limit m.max_amount_per_payment,
  u256-neg_limit m.budget_amount,
  u256-neg_limit m.max_payments_per_window,
)

-- A signature that verifies for a mandate verifies for the mandate with its limits negated.
pub verify_mandate-negate_limits :
    (eth : Eth) (m : Mandate) (sig : List ℕ) (chain_id : Option ℤ)
    → verify_mandate eth (negate_limits m) sig chain_id ≡ verify_mandate eth m sig chain_id
unfolding verify_mandate
verify_mandate-negate_limits eth m sig chain_id = rw struct_hash-negate_limits

-- No amount exceeds a cap that was positive before the negation.
pub exceeds_cap-negate_limits :
    (m : Mandate) (cap amount : ℤ)
    → m.max_amount_per_payment ≡ some cap
    → pos 1 ≤ℤ cap
    → exceeds_cap (negate_limits m) amount ≡ false
unfolding exceeds_cap neg
exceeds_cap-negate_limits m cap amount e h = ground arith
