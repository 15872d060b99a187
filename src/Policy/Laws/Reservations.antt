-- ===== src/Policy/Laws/Reservations.antt =====
-- Reservations of the mandate policy: when one is made, and that a failed settlement undoes it.
use stablecoin_x402_gateway.Base.{
  ℕ, ◌≡◌, Bool, true, false, Option, none, some, arith, nat_beq, nat_eq, ◌⊎◌, inl, inr,
  Option-cases, Bool-cases, is_some,
}
use stablecoin_x402_gateway.Base.Int.{ℤ}
use stablecoin_x402_gateway.Base.Dict.{lookup}
use stablecoin_x402_gateway.Eth.{Eth}
use stablecoin_x402_gateway.Mandate.{Mandate, exceeds_cap}
use stablecoin_x402_gateway.Accounts.{Accounts, reserve, release}
use stablecoin_x402_gateway.Accounts.Each.{release-reserve, release_absent}
use stablecoin_x402_gateway.Policy.Context.{Stage, PaymentContext, stage_number, payment_nonce}
use stablecoin_x402_gateway.Policy.State.{MandatePolicy, PolicyState, on_history}
use stablecoin_x402_gateway.Policy.Entitled.{Checked, entitled}
use stablecoin_x402_gateway.Policy.Delegated.{
  confirmation_approves, decide_windows, decide_limits, mandate_decide, settled_payment,
  mandate_settled,
}
use stablecoin_x402_gateway.Policy.Laws.Mandates.{
  account_in, Checked-cases, accounts-over_limit, accounts-on_history, accounts-after_reserve,
  entitled-IsEntitled,
}
use stablecoin_x402_gateway.Codes.{mandate_exceeded}
use stablecoin_x402_gateway.Policy.History.{record_confirmed}

-- The accounts after a decision: as before, or with one call of `reserve` made on them.
abbrev Reserved :
    Eth → ℕ → PaymentContext → Mandate → ℤ → Option Accounts → Option Accounts → Type 0
Reserved eth now pc m amount before after =
    (after ≡ before)
    ⊎ ((a : Accounts) × (nonce : ℕ) × (confirmed : Bool) × (before ≡ some a)
        × (payment_nonce eth pc ≡ some nonce)
        × (after ≡ some (reserve m nonce amount now confirmed a).1))

module _ (eth : Eth) (p : MandatePolicy) (now : ℕ) (pc : PaymentContext) where
  decide_windows_accounts :
      (m : Mandate) (amount : ℤ) (confirmed : Bool) (s : PolicyState)
      → Reserved eth now pc m amount s.accounts
          (decide_windows eth p now pc m amount confirmed s).1.accounts
  unfolding decide_windows
  decide_windows_accounts m amount confirmed s = elim (Option-cases s.accounts) [
    | inl off ↦ inl (ground arith)
    | inr (a, e) ↦ elim (Option-cases (payment_nonce eth pc)) [
      | inl unread ↦ inl (ground arith)
      | inr (nonce, en) ↦
          elim (Bool-cases (nat_beq (stage_number pc.stage) (stage_number Stage.pre_settlement))) [
            | inl early ↦ inr (
              a,
              nonce,
              confirmed,
              e,
              en,
              ground (
                arith,
                accounts-after_reserve p now pc m amount (is_some pc.payload.confirmation)
                    (reserve m nonce amount now confirmed a).0
                    (record s { accounts = some (reserve m nonce amount now confirmed a).1 }),
              ),
            )
            | inr late ↦ inl (ground arith)
          ]
    ]
  ]

  decide_limits_accounts :
      (m : Mandate) (amount : ℤ) (s : PolicyState)
      → Reserved eth now pc m amount s.accounts (decide_limits eth p now pc m amount s).1.accounts
  unfolding decide_limits on_history
  decide_limits_accounts m amount s = elim (Bool-cases (exceeds_cap m amount)) [
    | inr fits ↦
        rw fits (decide_windows_accounts m amount (confirmation_approves eth p now pc m amount) s)
    | inl over ↦
        let counted = on_history (record_confirmed m.delegator) s in
        elim (Bool-cases (confirmation_approves eth p now pc m amount)) [
          | inl approved ↦
              rw (over, approved)
                (rw (accounts-on_history (record_confirmed m.delegator) s) at
                  (decide_windows_accounts m amount true counted))
          | inr unapproved ↦
              rw (over, unapproved)
                (inl (
                  accounts-over_limit p now m.delegator (is_some pc.payload.confirmation)
                    mandate_exceeded s))
        ]
  ]

  -- A decision leaves the accounts, or makes one call of `reserve` for the payment's mandate.
  pub mandate_decide_accounts :
      (s : PolicyState)
      → ((mandate_decide eth p now pc s).1.accounts ≡ s.accounts)
        ⊎ ((m : Mandate) × (amount : ℤ) × (entitled eth p now pc s ≡ Checked.passed (m, amount))
            × Reserved eth now pc m amount s.accounts (mandate_decide eth p now pc s).1.accounts)
  unfolding mandate_decide
  mandate_decide_accounts s = elim (Checked-cases (entitled eth p now pc s)) [
    | inr (d, e) ↦ inl (ground arith)
    | inl ((m, amount), e) ↦
        inr (m, amount, e, rw (e, mandate_decide) (decide_limits_accounts m amount s))
  ]

  settled_payment-entitled :
      (m : Mandate) (amount : ℤ) (nonce : ℕ) (s : PolicyState)
      → entitled eth p now pc s ≡ Checked.passed (m, amount)
      → payment_nonce eth pc ≡ some nonce
      → settled_payment eth pc ≡ some (m, nonce)
  unfolding settled_payment
  settled_payment-entitled m amount nonce s e en =
      let v = entitled-IsEntitled eth p now pc s m amount e in simp (v.carried, v.parsed, en)

  accounts-failed :
      (later : ℕ) (m : Mandate) (nonce : ℕ) (s : PolicyState) (a : Accounts)
      → settled_payment eth pc ≡ some (m, nonce)
      → s.accounts ≡ some a
      → (mandate_settled eth later pc false s).accounts ≡ some (release m nonce a)
  unfolding mandate_settled
  accounts-failed later m nonce s a e ea = ground arith

  -- The nonce of the payment is not reserved.
  abbrev pub IsFresh : PolicyState → Type 0
  IsFresh s =
      (m : Mandate) (nonce : ℕ)
      → settled_payment eth pc ≡ some (m, nonce)
      → lookup nonce (account_in m.mandate_id s).reserved ≡ none

  released_unchanged :
      (later : ℕ) (s t : PolicyState) (id : ℕ)
      → IsFresh s
      → t.accounts ≡ s.accounts
      → account_in id (mandate_settled eth later pc false t) ≡ account_in id s
  unfolding mandate_settled
  released_unchanged later s t id fresh same = elim (Option-cases s.accounts) [
    | inl off ↦ ground arith
    | inr (a, ea) ↦ elim (Option-cases (settled_payment eth pc)) [
      | inl unread ↦ ground arith
      | inr ((m, nonce), e) ↦ ground (arith, release_absent m nonce a id, fresh m nonce e)
    ]
  ]

  released_reserved :
      (later : ℕ) (s t : PolicyState) (id : ℕ) (m : Mandate) (nonce : ℕ) (amount : ℤ)
      (confirmed : Bool) (a : Accounts)
      → lookup nonce (account_in m.mandate_id s).reserved ≡ none
      → settled_payment eth pc ≡ some (m, nonce)
      → s.accounts ≡ some a
      → t.accounts ≡ some (reserve m nonce amount now confirmed a).1
      → account_in id (mandate_settled eth later pc false t) ≡ account_in id s
  unfolding mandate_settled
  released_reserved later s t id m nonce amount confirmed a fresh e ea et =
      ground (arith, release-reserve m nonce amount now confirmed a id)

  -- A payment whose settlement fails spends nothing: whatever the policy decided, after the
  -- notification of the failure every account is as it was before the decision, where the nonce of
  -- the payment was not reserved before.
  pub mandate_settled-failed :
      (later : ℕ) (s : PolicyState) (id : ℕ)
      → IsFresh s
      → account_in id (mandate_settled eth later pc false (mandate_decide eth p now pc s).1)
        ≡ account_in id s
  mandate_settled-failed later s id fresh = elim (mandate_decide_accounts s) [
    | inl same ↦ released_unchanged later s (mandate_decide eth p now pc s).1 id fresh same
    | inr (m, amount, e, inl same) ↦
        released_unchanged later s (mandate_decide eth p now pc s).1 id fresh same
    | inr (m, amount, e, inr (a, nonce, confirmed, ea, en, eb)) ↦
        let found = settled_payment-entitled m amount nonce s e en in
        released_reserved later s (mandate_decide eth p now pc s).1 id m nonce amount confirmed a
          (fresh m nonce found) found ea eb
  ]
