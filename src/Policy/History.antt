-- ===== src/Policy/History.antt =====
-- x402/history.go: how the confirmation flow has gone, per delegator.
use stablecoin_x402_gateway.Base.{ℕ, ◌+◌, ◌/◌, none, some, nat_eq}
use stablecoin_x402_gateway.Base.Dict.{Dict, lookup, insert}
use stablecoin_x402_gateway.Policy.Context.{DelegatorHistory}

-- The counters and their snapshot have the same fields.
abbrev pub ConfirmationHistory : Type 0
ConfirmationHistory = Dict ℕ DelegatorHistory

abbrev pub no_history : DelegatorHistory
no_history = record { asks = 0; confirmations = 0; failures = 0; last_asked_at = 0 }

unfoldable pub snapshot : ConfirmationHistory → ℕ → DelegatorHistory
snapshot h d = elim (lookup d h) [ none ↦ no_history | some c ↦ c ]

-- `time.Time.Unix`
unfoldable pub unix : ℕ → ℕ
unix now = now / 1_000_000_000

unfoldable pub record_ask : ℕ → ℕ → ConfirmationHistory → ConfirmationHistory
unfolding snapshot
record_ask d now h =
    let c = snapshot h d in insert d (record c { asks = c.asks + 1; last_asked_at = unix now }) h

unfoldable pub record_confirmed : ℕ → ConfirmationHistory → ConfirmationHistory
unfolding snapshot
record_confirmed d h =
    let c = snapshot h d in insert d (record c { confirmations = c.confirmations + 1 }) h

unfoldable pub record_failure : ℕ → ConfirmationHistory → ConfirmationHistory
unfolding snapshot
record_failure d h = let c = snapshot h d in insert d (record c { failures = c.failures + 1 }) h
