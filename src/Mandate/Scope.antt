-- ===== src/Mandate/Scope.antt =====
-- The scope of a mandate: payees, resources and the cap on one payment.
use stablecoin_x402_gateway.Base.{
  ℕ, String, Bool, true, false, not, ◌&&◌, ◌||◌, none, some, List, [], ◌∷◌, nat_beq,
}
use stablecoin_x402_gateway.Base.Int.{ℤ, ltb_ℤ, is_positive}
use stablecoin_x402_gateway.Base.Text.{has_prefix}
use stablecoin_x402_gateway.Mandate.Hash.{Mandate}

unfoldable pub contains_address : List ℕ → ℕ → Bool
contains_address [] a = false
contains_address (x ∷ xs) a = nat_beq x a || contains_address xs a

unfoldable pub prefix_allowed : List String → String → Bool
prefix_allowed [] resource = false
prefix_allowed (p ∷ ps) resource = has_prefix resource p || prefix_allowed ps resource

is_empty {ℓ} : {A : Type ℓ} → List A → Bool
is_empty [] = true
is_empty (_ ∷ _) = false

-- An empty list allows all.
unfoldable pub payee_allowed : Mandate → ℕ → Bool
unfolding is_empty
payee_allowed m pay_to = is_empty m.allowed_payees || contains_address m.allowed_payees pay_to

unfoldable pub resource_allowed : Mandate → String → Bool
unfolding is_empty
resource_allowed m resource =
    is_empty m.allowed_resources || prefix_allowed m.allowed_resources resource

unfoldable pub exceeds_cap : Mandate → ℤ → Bool
exceeds_cap m amount = elim m.max_amount_per_payment [
  | none ↦ false
  | some cap ↦ is_positive cap && ltb_ℤ cap amount
]

-- `WithinScope`: true where the source returns no error.
unfoldable pub within_scope : Mandate → ℕ → String → ℤ → Bool
within_scope m pay_to resource amount =
    payee_allowed m pay_to && resource_allowed m resource && not (exceeds_cap m amount)
