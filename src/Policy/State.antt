-- ===== src/Policy/State.antt =====
-- The parts of `MandatePolicy` that payments change, and its configuration.
use stablecoin_x402_gateway.Base.{
  ℕ, ◌+◌, ◌*◌, ◌^◌, Bool, true, false, Option, none, some, [], nat_eq,
}
use stablecoin_x402_gateway.Base.Int.{ℤ}
use stablecoin_x402_gateway.Base.Dict.{Dict, lookup, insert}
use stablecoin_x402_gateway.Accounts.{Accounts, restore}
use stablecoin_x402_gateway.Policy.Context.{DelegatorHistory}
use stablecoin_x402_gateway.Policy.History.{ConfirmationHistory, no_history, snapshot}

pub record MandatePolicy : Type 0 where
  pub chain_id : Option ℤ
  pub ask_on_exceed : Bool
  pub defer_above : Option ℤ

-- A nil pointer is `none`.
pub record PolicyState : Type 0 where
  pub accounts : Option Accounts
  pub revocations : Option (Dict ℕ Bool)
  pub history : Option ConfirmationHistory

-- `NewMandatePolicy`
abbrev pub new_policy_state : PolicyState
new_policy_state = record { accounts = some []; revocations = some []; history = some [] }

-- 20 bytes of the delegator, then 32 bytes of the mandate id.
unfoldable pub revocation_key : ℕ → ℕ → ℕ
revocation_key delegator mandate_id = delegator * 2 ^ 256 + mandate_id

unfoldable pub has_revocation : ℕ → ℕ → Dict ℕ Bool → Bool
unfolding revocation_key
has_revocation delegator mandate_id set = elim (lookup (revocation_key delegator mandate_id) set) [
  | none ↦ false
  | some b ↦ b
]

unfoldable pub add_revocation : ℕ → ℕ → Dict ℕ Bool → Dict ℕ Bool
unfolding revocation_key
add_revocation delegator mandate_id set = insert (revocation_key delegator mandate_id) true set

-- `revoke` and `RestoreRevocation`
unfoldable pub revoke : ℕ → ℕ → PolicyState → PolicyState
unfolding add_revocation
revoke delegator mandate_id s = elim s.revocations [
  | none ↦ s
  | some set ↦ record s { revocations = some (add_revocation delegator mandate_id set) }
]

unfoldable pub restore_spend : ℕ → ℕ → ℤ → PolicyState → PolicyState
restore_spend mandate_id at amount s = elim s.accounts [
  | none ↦ s
  | some a ↦ record s { accounts = some (restore mandate_id at amount a) }
]

unfoldable pub delegator_history : ℕ → PolicyState → DelegatorHistory
delegator_history delegator s = elim s.history [ none ↦ no_history | some h ↦ snapshot h delegator ]

-- An update of the history, where there is one.
unfoldable pub on_history : (ConfirmationHistory → ConfirmationHistory) → PolicyState → PolicyState
on_history f s = elim s.history [ none ↦ s | some h ↦ record s { history = some (f h) } ]
