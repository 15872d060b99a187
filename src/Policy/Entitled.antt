-- ===== src/Policy/Entitled.antt =====
-- The first half of `(MandatePolicy).Decide`: what entitles a payment, before any limit.
use stablecoin_x402_gateway.Base.{
  ℕ, String, Bool, true, false, not, Option, none, some, nat_beq, string_eq, ◌==◌,
}
use stablecoin_x402_gateway.Base.Int.{ℤ, pos, ltb_ℤ, leb_ℤ}
use stablecoin_x402_gateway.Codes.{
  ErrorCode, mandate_missing, mandate_invalid, mandate_expired, mandate_revoked, mandate_exceeded,
}
use stablecoin_x402_gateway.Eth.{Eth}
use stablecoin_x402_gateway.Mandate.{
  Mandate, to_mandate, verify_mandate, payee_allowed, resource_allowed,
}
use stablecoin_x402_gateway.Policy.Context.{Decision, PaymentContext, rejection, payment_amount}
use stablecoin_x402_gateway.Policy.History.{unix}
use stablecoin_x402_gateway.Policy.State.{MandatePolicy, PolicyState, has_revocation}

-- A chain of checks, each with an early return of its decision.
pub data Checked {ℓ} (A : Type ℓ) : Type ℓ where
  passed : A → Checked A
  refused : Decision → Checked A

infixl 5 ◌>>=◌ ◌>>◌
abbrev pub ◌>>=◌ {ℓ κ} : {A : Type ℓ} {B : Type κ} → Checked A → (A → Checked B) → Checked B
passed a >>= f = f a
refused d >>= f = refused d

abbrev pub ◌>>◌ {κ} : {B : Type κ} → Checked (Unit {0}) → Checked B → Checked B
m >> k = m >>= λ _. k

-- `if !test { return rejectMandate(code, reason) }`
abbrev require : Bool → ErrorCode → String → Checked (Unit {0})
require true code reason = passed tt
require false code reason = refused (rejection code reason)

abbrev or_reject {ℓ} : {A : Type ℓ} → Option A → ErrorCode → String → Checked A
or_reject (some a) code reason = passed a
or_reject none code reason = refused (rejection code reason)

unfoldable pub is_started : Mandate → ℕ → Bool
unfolding unix
is_started m now = elim m.valid_after [ none ↦ true | some t ↦ leb_ℤ t (pos (unix now)) ]

unfoldable pub is_unexpired : Mandate → ℕ → Bool
unfolding unix
is_unexpired m now = elim m.valid_before [ none ↦ true | some t ↦ ltb_ℤ (pos (unix now)) t ]

unfoldable pub is_revoked : Mandate → PolicyState → Bool
unfolding has_revocation
is_revoked m s = elim s.revocations [
  | none ↦ false
  | some set ↦ has_revocation m.delegator m.mandate_id set
]

unfoldable pub entitled :
    Eth → MandatePolicy → ℕ → PaymentContext → PolicyState → Checked (Mandate × ℤ)
entitled eth p now pc s = do
  signed ← or_reject pc.payload.mandate mandate_missing "a signed mandate is required"
  m ← or_reject (to_mandate eth signed.mandate) mandate_invalid "malformed mandate"
  _ ←
      or_reject (verify_mandate eth m (eth.from_hex signed.signature) p.chain_id) mandate_invalid
        "mandate signature does not verify"
  v ← or_reject pc.verification mandate_invalid "cannot bind the payer to the mandate"
  require (not (v.payer == "")) mandate_invalid "cannot bind the payer to the mandate"
  require (nat_beq (eth.hex_to_address v.payer) m.agent) mandate_invalid
      "payer is not the mandated agent"
  require (is_started m now) mandate_expired "mandate is not yet valid"
  require (is_unexpired m now) mandate_expired "mandate has expired"
  require (not (is_revoked m s)) mandate_revoked "mandate has been revoked"
  require (payee_allowed m (eth.hex_to_address pc.requirements.pay_to)) mandate_exceeded
      "payee is not allowed by the mandate"
  require (resource_allowed m pc.requirements.resource) mandate_exceeded
      "resource is not allowed by the mandate"
  amount ← or_reject (payment_amount pc) mandate_invalid "payment amount is unreadable"
  passed (m, amount)
