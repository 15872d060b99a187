-- ===== src/Policy/Laws/Mandates.antt =====
-- The mandate policy: what an approval means, and what each outcome does to the accounts.
use stablecoin_x402_gateway.Base.{
  ℕ, ◌≡◌, ◌≢◌, refl, Bool, true, false, Option, none, some, [], arith, nat_eq, string_eq, ◌⊎◌, inl,
  inr, Option-cases, Bool-cases, is_some,
}
use stablecoin_x402_gateway.Base.Int.{ℤ}
use stablecoin_x402_gateway.Eth.{Eth}
use stablecoin_x402_gateway.Wire.{SignedMandateJson, VerifyResult}
use stablecoin_x402_gateway.Mandate.{
  Mandate, to_mandate, verify_mandate, payee_allowed, resource_allowed, exceeds_cap,
}
use stablecoin_x402_gateway.Accounts.{Account, account_of, reserve}
use stablecoin_x402_gateway.Policy.Context.{
  Action, Decision, PaymentContext, payment_amount, payment_nonce,
}
use stablecoin_x402_gateway.Policy.State.{MandatePolicy, PolicyState, on_history}
use stablecoin_x402_gateway.Policy.History.{ConfirmationHistory, record_confirmed}
use stablecoin_x402_gateway.Codes.{
  ErrorCode, mandate_exceeded, mandate_budget_exceeded, mandate_rate_exceeded,
}
use stablecoin_x402_gateway.Accounts.Each.{reserve_refused}
use stablecoin_x402_gateway.Policy.Entitled.{
  Checked, entitled, is_started, is_unexpired, is_revoked,
}
use stablecoin_x402_gateway.Policy.Delegated.{
  confirmation_approves, over_limit, decide_stage, decide_windows, decide_limits, mandate_decide,
  after_reserve,
}

-- What a payment shows that passes the first half of the policy.
pub record IsEntitled (eth : Eth) (p : MandatePolicy) (now : ℕ) (pc : PaymentContext)
    (s : PolicyState) (m : Mandate) (amount : ℤ) : Type 0 where
  pub signed : SignedMandateJson
  pub result : VerifyResult
  pub carried : pc.payload.mandate ≡ some signed
  pub parsed : to_mandate eth signed.mandate ≡ some m
  pub verified : is_some (verify_mandate eth m (eth.from_hex signed.signature) p.chain_id) ≡ true
  pub facilitated : pc.verification ≡ some result
  pub payer_is_agent : eth.hex_to_address result.payer ≡ m.agent
  pub started : is_started m now ≡ true
  pub unexpired : is_unexpired m now ≡ true
  pub unrevoked : is_revoked m s ≡ false
  pub payee : payee_allowed m (eth.hex_to_address pc.requirements.pay_to) ≡ true
  pub resource : resource_allowed m pc.requirements.resource ≡ true
  pub amount_read : payment_amount pc ≡ some amount

module _ (eth : Eth) (p : MandatePolicy) (now : ℕ) (pc : PaymentContext) (s : PolicyState) where
  pub entitled-IsEntitled :
      (m : Mandate) (amount : ℤ)
      → entitled eth p now pc s ≡ Checked.passed (m, amount)
      → IsEntitled eth p now pc s m amount
  unfolding entitled
  entitled-IsEntitled m amount h = elim (Option-cases pc.payload.mandate) [
    | inl absent ↦ absurd (ground arith)
    | inr (signed, e) ↦ elim (Option-cases pc.verification) [
      | inl absent ↦ absurd (ground arith)
      | inr (v, ev) ↦ record {
        signed = signed;
        result = v;
        carried = e;
        parsed = ground arith;
        verified = ground arith;
        facilitated = ev;
        payer_is_agent = ground arith;
        started = ground arith;
        unexpired = ground arith;
        unrevoked = ground arith;
        payee = ground arith;
        resource = ground arith;
        amount_read = ground arith;
      }
    ]
  ]

module _ (eth : Eth) (p : MandatePolicy) (now : ℕ) (pc : PaymentContext) (s : PolicyState) where
  entitled-refused_action :
      (d : Decision) → entitled eth p now pc s ≡ Checked.refused d → d.action ≡ Action.reject
  unfolding entitled
  entitled-refused_action d h = ground arith

pub Checked-cases :
    {A : Type 0} (c : Checked A)
    → ((a : A) × (c ≡ Checked.passed a)) ⊎ ((d : Decision) × (c ≡ Checked.refused d))
Checked-cases (Checked.passed a) = inl (a, refl)
Checked-cases (Checked.refused d) = inr (d, refl)

-- What the accounts of a state hold for a mandate id.
abbrev pub account_in : ℕ → PolicyState → Account
account_in id s = elim s.accounts [ none ↦ account_of id [] | some a ↦ account_of id a ]

abbrev IsRefusal : Action → Type 0
IsRefusal a = (a ≢ Action.approve) × (a ≢ Action.defer)

decide_stage-not-IsRefusal :
    (p : MandatePolicy) (pc : PaymentContext) (amount : ℤ)
    → ¬ (IsRefusal (decide_stage p pc amount).action)
unfolding decide_stage
decide_stage-not-IsRefusal p pc amount (h, k) = ground arith

pub accounts-over_limit :
    (p : MandatePolicy) (now delegator : ℕ) (attached : Bool) (code : ErrorCode) (s : PolicyState)
    → (over_limit p now delegator attached code s).1.accounts ≡ s.accounts
unfolding over_limit on_history
accounts-over_limit p now delegator attached code s = ground arith

pub accounts-on_history :
    (f : ConfirmationHistory → ConfirmationHistory) (s : PolicyState)
    → (on_history f s).accounts ≡ s.accounts
unfolding on_history
accounts-on_history f s = ground arith

pub accounts-after_reserve :
    (p : MandatePolicy) (now : ℕ) (pc : PaymentContext) (m : Mandate) (amount : ℤ) (attached : Bool)
    (code : Option ErrorCode) (s : PolicyState)
    → (after_reserve p now pc m amount attached code s).1.accounts ≡ s.accounts
unfolding after_reserve
accounts-after_reserve p now pc m amount attached (some mandate_budget_exceeded) s =
    accounts-over_limit p now m.delegator attached mandate_budget_exceeded s
accounts-after_reserve p now pc m amount attached (some mandate_rate_exceeded) s = refl
accounts-after_reserve p now pc m amount attached _ s = refl

after_reserve_granted :
    (p : MandatePolicy) (now : ℕ) (pc : PaymentContext) (m : Mandate) (amount : ℤ) (attached : Bool)
    (s : PolicyState)
    → after_reserve p now pc m amount attached none s ≡ (decide_stage p pc amount, s)
unfolding after_reserve
after_reserve_granted p now pc m amount attached s = refl

module _ (eth : Eth) (p : MandatePolicy) (now : ℕ) (pc : PaymentContext) (m : Mandate)
    (amount : ℤ) where
  decide_windows_refusal :
      (confirmed : Bool) (s : PolicyState) (id : ℕ)
      → IsRefusal (decide_windows eth p now pc m amount confirmed s).0.action
      → account_in id (decide_windows eth p now pc m amount confirmed s).1 ≡ account_in id s
  unfolding decide_windows
  decide_windows_refusal confirmed s id h = elim (Option-cases s.accounts) [
    | inl off ↦ ground arith
    | inr (a, e) ↦ elim (Option-cases (payment_nonce eth pc)) [
      | inl unread ↦ ground arith
      | inr (nonce, en) ↦ elim (Option-cases (reserve m nonce amount now confirmed a).0) [
        | inl granted ↦ ground (
          arith,
          decide_stage-not-IsRefusal p pc amount,
          after_reserve_granted p now pc m amount (is_some pc.payload.confirmation)
              (record s { accounts = some (reserve m nonce amount now confirmed a).1 }),
        )
        | inr (code, refused) ↦ ground (
          arith,
          reserve_refused m nonce amount now confirmed a id (λ q. cc),
          accounts-after_reserve p now pc m amount (is_some pc.payload.confirmation) (some code)
              (record s { accounts = some (reserve m nonce amount now confirmed a).1 }),
        )
      ]
    ]
  ]

  decide_limits_refusal :
      (s : PolicyState) (id : ℕ)
      → IsRefusal (decide_limits eth p now pc m amount s).0.action
      → account_in id (decide_limits eth p now pc m amount s).1 ≡ account_in id s
  unfolding decide_limits on_history
  decide_limits_refusal s id h = elim (Bool-cases (exceeds_cap m amount)) [
    | inr fits ↦
        ground (arith, decide_windows_refusal (confirmation_approves eth p now pc m amount) s id)
    | inl over ↦ ground (
      arith,
      decide_windows_refusal true (on_history (record_confirmed m.delegator) s) id,
      accounts-over_limit p now m.delegator (is_some pc.payload.confirmation) mandate_exceeded s,
    )
  ]

  decide_windows_cap :
      (s : PolicyState)
      → (decide_limits eth p now pc m amount s).0.action ≡ Action.approve
      → (exceeds_cap m amount ≡ false) ⊎ (confirmation_approves eth p now pc m amount ≡ true)
  unfolding decide_limits over_limit
  decide_windows_cap s h = ground arith

module _ (eth : Eth) (p : MandatePolicy) (now : ℕ) (pc : PaymentContext) (s : PolicyState) where
  -- A payment that the mandate policy rejects, or asks about, spends nothing: every account is as
  -- it was.
  pub mandate_decide-refusal :
      (id : ℕ)
      → (mandate_decide eth p now pc s).0.action ≢ Action.approve
      → (mandate_decide eth p now pc s).0.action ≢ Action.defer
      → account_in id (mandate_decide eth p now pc s).1 ≡ account_in id s
  unfolding mandate_decide
  mandate_decide-refusal id h k = elim (Checked-cases (entitled eth p now pc s)) [
    | inr (d, e) ↦ ground arith
    | inl ((m, amount), e) ↦ ground (arith, decide_limits_refusal eth p now pc m amount s id)
  ]

  -- An approved payment carries a mandate that its delegator signed, whose agent is the payer, in
  -- its time window, not revoked, for this payee and this resource, and its amount is within the
  -- cap on one payment or confirmed by the delegator.
  pub mandate_decide-approve :
      (mandate_decide eth p now pc s).0.action ≡ Action.approve
      → (m : Mandate) × (amount : ℤ) × IsEntitled eth p now pc s m amount
        × ((exceeds_cap m amount ≡ false) ⊎ (confirmation_approves eth p now pc m amount ≡ true))
  unfolding mandate_decide
  mandate_decide-approve h = elim (Checked-cases (entitled eth p now pc s)) [
    | inr (d, e) ↦ absurd (ground (arith, entitled-refused_action eth p now pc s d e))
    | inl ((m, amount), e) ↦ (
      m,
      amount,
      entitled-IsEntitled eth p now pc s m amount e,
      decide_windows_cap eth p now pc m amount s (ground arith),
    )
  ]
