-- ===== src/Policy/Laws/Negated.antt =====
-- The mandate policy for a signed mandate whose limits the bearer has negated.
use stablecoin_x402_gateway.Base.{ℕ, ◌≡◌, Bool, none, some, arith, Option-cases, inl, inr}
use stablecoin_x402_gateway.Base.Int.{ℤ, pos, ◌≤ℤ◌}
use stablecoin_x402_gateway.Eth.{Eth}
use stablecoin_x402_gateway.Wire.{SignedMandateJson}
use stablecoin_x402_gateway.Mandate.{Mandate, to_mandate, payee_allowed, resource_allowed}
use stablecoin_x402_gateway.Mandate.Negation.{
  negate_limits, verify_mandate-negate_limits, exceeds_cap-negate_limits,
}
use stablecoin_x402_gateway.Accounts.{Accounts, reserve, account_of}
use stablecoin_x402_gateway.Accounts.Laws.{reserve_account-negate_limits}
use stablecoin_x402_gateway.Policy.Context.{
  PaymentContext, payment_amount, payment_nonce, payload_nonce,
}
use stablecoin_x402_gateway.Policy.State.{MandatePolicy, PolicyState}
use stablecoin_x402_gateway.Policy.Entitled.{
  Checked, entitled, is_started, is_unexpired, is_revoked,
}
use stablecoin_x402_gateway.Policy.Delegated.{
  confirmation_approves, after_reserve, decide_stage, decide_windows, decide_limits, mandate_decide,
}

-- The payment with another signed mandate.
abbrev pub with_mandate : SignedMandateJson → PaymentContext → PaymentContext
with_mandate signed pc = record pc { payload = record pc.payload { mandate = some signed } }

module _ (eth : Eth) (p : MandatePolicy) (now : ℕ) (pc : PaymentContext) (s : PolicyState) where
  entitled-negate_limits :
      (signed negated : SignedMandateJson) (m : Mandate) (amount : ℤ)
      → to_mandate eth signed.mandate ≡ some m
      → to_mandate eth negated.mandate ≡ some (negate_limits m)
      → negated.signature ≡ signed.signature
      → entitled eth p now (with_mandate signed pc) s ≡ Checked.passed (m, amount)
      → entitled eth p now (with_mandate negated pc) s ≡ Checked.passed (negate_limits m, amount)
  unfolding entitled payment_amount is_started is_unexpired is_revoked payee_allowed
      resource_allowed
  entitled-negate_limits signed negated m amount e ne same h =
      ground (arith, verify_mandate-negate_limits eth m (eth.from_hex signed.signature) p.chain_id)

  reserve-negate_limits :
      (m : Mandate) (b rate amount : ℤ) (nonce : ℕ) (skip : Bool) (a : Accounts)
      → m.budget_amount ≡ some b
      → pos 1 ≤ℤ b
      → m.max_payments_per_window ≡ some rate
      → pos 1 ≤ℤ rate
      → (reserve (negate_limits m) nonce amount now skip a).0 ≡ none
  unfolding reserve
  reserve-negate_limits m b rate amount nonce skip a eb pb er pr =
      reserve_account-negate_limits m b rate nonce amount now skip (account_of m.mandate_id a) eb pb
        er pr

  decide_limits-negate_limits :
      (m : Mandate) (cap b rate amount : ℤ) (nonce : ℕ)
      → m.max_amount_per_payment ≡ some cap
      → pos 1 ≤ℤ cap
      → m.budget_amount ≡ some b
      → pos 1 ≤ℤ b
      → m.max_payments_per_window ≡ some rate
      → pos 1 ≤ℤ rate
      → payment_nonce eth pc ≡ some nonce
      → (decide_limits eth p now pc (negate_limits m) amount s).0 ≡ decide_stage p pc amount
  unfolding decide_limits decide_windows after_reserve
  decide_limits-negate_limits m cap b rate amount nonce ec pc' eb pb er pr en =
      let confirmed = confirmation_approves eth p now pc (negate_limits m) amount in
      elim (Option-cases s.accounts) [
        | inl off ↦ ground (arith, exceeds_cap-negate_limits m cap amount ec pc')
        | inr (a, ea) ↦ ground (
          arith,
          exceeds_cap-negate_limits m cap amount ec pc',
          reserve-negate_limits m b rate amount nonce confirmed a eb pb er pr,
        )
      ]

-- A bearer of a signed mandate with positive limits can lift all of them: sent with its three limits
-- negated and the same signature, the mandate passes at every amount. The payment is never
-- rejected or asked about; only the deferral of large payments is left.
pub mandate_decide-negated :
    (eth : Eth) (p : MandatePolicy) (now : ℕ) (pc : PaymentContext) (s : PolicyState)
    (signed negated : SignedMandateJson) (m : Mandate) (cap b rate amount : ℤ) (nonce : ℕ)
    → to_mandate eth signed.mandate ≡ some m
    → to_mandate eth negated.mandate ≡ some (negate_limits m)
    → negated.signature ≡ signed.signature
    → m.max_amount_per_payment ≡ some cap
    → pos 1 ≤ℤ cap
    → m.budget_amount ≡ some b
    → pos 1 ≤ℤ b
    → m.max_payments_per_window ≡ some rate
    → pos 1 ≤ℤ rate
    → payment_nonce eth pc ≡ some nonce
    → entitled eth p now (with_mandate signed pc) s ≡ Checked.passed (m, amount)
    → (mandate_decide eth p now (with_mandate negated pc) s).0 ≡ decide_stage p pc amount
unfolding mandate_decide decide_stage payment_nonce payload_nonce
mandate_decide-negated eth p now pc s signed negated m cap b rate amount nonce e ne same ec pc' eb
      pb er pr en h =
    ground (
      arith,
      entitled-negate_limits eth p now pc s signed negated m amount e ne same h,
      decide_limits-negate_limits eth p now (with_mandate negated pc) s m cap b rate amount nonce ec
          pc' eb pb er pr en,
    )
