-- ===== src/Policy/Delegated.antt =====
-- The second half of `(MandatePolicy).Decide`, its limits, and `(MandatePolicy).Settled`.
use stablecoin_x402_gateway.Base.{
  ℕ, String, Bool, false, ◌&&◌, Option, none, some, nat_beq, string_eq, ◌==◌, if◌then◌else◌,
  is_some, ltb, ◌>>=◌, ◌>>◌, guard,
}
use stablecoin_x402_gateway.Base.Int.{ℤ, pos, ltb_ℤ, leb_ℤ, eqb_ℤ, is_positive, wrap64}
use stablecoin_x402_gateway.Codes.{
  ErrorCode, mandate_invalid, mandate_exceeded, mandate_budget_exceeded, mandate_rate_exceeded,
  confirmation_required, payment_deferred,
}
use stablecoin_x402_gateway.Eth.{Eth}
use stablecoin_x402_gateway.Mandate.{Mandate, to_mandate, exceeds_cap}
use stablecoin_x402_gateway.Accounts.{reserve, commit, release}
use stablecoin_x402_gateway.Confirmation.{to_confirmation, verify_confirmation}
use stablecoin_x402_gateway.Policy.Context.{
  Action, Decision, Stage, PaymentContext, approval, decision, rejection, stage_number,
  payment_nonce,
}
use stablecoin_x402_gateway.Policy.History.{unix, record_ask, record_confirmed, record_failure}
use stablecoin_x402_gateway.Policy.State.{MandatePolicy, PolicyState, on_history}
use stablecoin_x402_gateway.Policy.Entitled.{Checked, entitled}

-- `confirmationApproves`: the delegator signed exactly this payment, and in time.
unfoldable pub confirmation_approves : Eth → MandatePolicy → ℕ → PaymentContext → Mandate → ℤ → Bool
confirmation_approves eth p now pc m amount = is_some (do
  j ← pc.payload.confirmation
  c ← to_confirmation eth j
  signer ← verify_confirmation eth c (eth.from_hex j.signature) p.chain_id
  guard (nat_beq signer m.delegator)
  guard (nat_beq c.mandate_id m.mandate_id)
  nonce ← payment_nonce eth pc
  guard (nat_beq c.authorization_nonce nonce)
  confirmed ← c.amount
  guard (eqb_ℤ confirmed amount)
  guard (c.resource == pc.requirements.resource)
  before ← c.valid_before
  guard (ltb_ℤ (pos (unix now)) (wrap64 before)))

-- The reason of an ask is the reason of the refusal with an addition.
confirm_reason : ErrorCode → String
confirm_reason mandate_budget_exceeded =
    "payment exceeds the mandate's cumulative budget; confirm with the delegator"
confirm_reason _ = "amount exceeds the per-payment limit; confirm with the delegator"

limit_reason : ErrorCode → String
limit_reason mandate_budget_exceeded = "payment exceeds the mandate's cumulative budget"
limit_reason _ = "amount exceeds the per-payment limit"

unfoldable pub over_limit :
    MandatePolicy → ℕ → ℕ → Bool → ErrorCode → PolicyState → Decision × PolicyState
unfolding confirm_reason limit_reason
over_limit p now delegator attached code s =
    if p.ask_on_exceed
    then (
      decision Action.ask confirmation_required (confirm_reason code),
      if attached
          then on_history (record_failure delegator) s
          else on_history (record_ask delegator now) s,
    )
    else (rejection code (limit_reason code), s)

-- The last step: a large payment waits for the confirmed stage.
unfoldable pub defers : MandatePolicy → ℤ → Stage → Bool
defers p amount stage = elim p.defer_above [
  | none ↦ false
  | some above ↦
      is_positive above
      && leb_ℤ above amount
      && ltb (stage_number stage) (stage_number Stage.confirmed)
]

unfoldable pub decide_stage : MandatePolicy → PaymentContext → ℤ → Decision
unfolding defers
decide_stage p pc amount =
    if defers p amount pc.stage
    then decision Action.defer payment_deferred
        "large payment delivered after settlement confirmations"
    else approval

-- `switch p.accounts.reserve(…)`
unfoldable pub after_reserve :
    MandatePolicy
    → ℕ
    → PaymentContext
    → Mandate
    → ℤ
    → Bool
    → Option ErrorCode
    → PolicyState
    → Decision × PolicyState
after_reserve p now pc m amount attached (some mandate_budget_exceeded) s =
    over_limit p now m.delegator attached mandate_budget_exceeded s
after_reserve p now pc m amount attached (some mandate_rate_exceeded) s =
    (rejection mandate_rate_exceeded "payment exceeds the mandate's rate limit", s)
after_reserve p now pc m amount attached _ s = (decide_stage p pc amount, s)

unfoldable pub decide_windows :
    Eth
    → MandatePolicy
    → ℕ
    → PaymentContext
    → Mandate
    → ℤ
    → Bool
    → PolicyState
    → Decision × PolicyState
unfolding after_reserve
decide_windows eth p now pc m amount confirmed s = elim s.accounts [
  | none ↦ (decide_stage p pc amount, s)
  | some a ↦
      if nat_beq (stage_number pc.stage) (stage_number Stage.pre_settlement)
      then elim (payment_nonce eth pc) [
        | none ↦ (rejection mandate_invalid "payment nonce is unreadable", s)
        | some nonce ↦
            let (code, a') = reserve m nonce amount now confirmed a in
            after_reserve p now pc m amount (is_some pc.payload.confirmation) code
              (record s { accounts = some a' })
      ]
      else (decide_stage p pc amount, s)
]

unfoldable pub decide_limits :
    Eth → MandatePolicy → ℕ → PaymentContext → Mandate → ℤ → PolicyState → Decision × PolicyState
decide_limits eth p now pc m amount s =
    let confirmed = confirmation_approves eth p now pc m amount in
    if exceeds_cap m amount
    then if confirmed
      then decide_windows eth p now pc m amount confirmed
          (on_history (record_confirmed m.delegator) s)
      else over_limit p now m.delegator (is_some pc.payload.confirmation) mandate_exceeded s
    else decide_windows eth p now pc m amount confirmed s

unfoldable pub mandate_decide :
    Eth → MandatePolicy → ℕ → PaymentContext → PolicyState → Decision × PolicyState
mandate_decide eth p now pc s = elim (entitled eth p now pc s) [
  | Checked.refused d ↦ (d, s)
  | Checked.passed (m, amount) ↦ decide_limits eth p now pc m amount s
]

-- The mandate and the nonce by which `Settled` finds the reservation.
unfoldable pub settled_payment : Eth → PaymentContext → Option (Mandate × ℕ)
settled_payment eth pc = do
  signed ← pc.payload.mandate
  m ← to_mandate eth signed.mandate
  nonce ← payment_nonce eth pc
  some (m, nonce)

-- `Settled`: the outcome of the settlement commits or releases the reservation.
unfoldable pub mandate_settled : Eth → ℕ → PaymentContext → Bool → PolicyState → PolicyState
mandate_settled eth now pc success s = elim s.accounts [
  | none ↦ s
  | some a ↦ elim (settled_payment eth pc) [
    | none ↦ s
    | some (m, nonce) ↦
        if success
        then record s { accounts = some (commit m nonce now a) }
        else record s { accounts = some (release m nonce a) }
  ]
]
