-- ===== src/Lib.antt =====
-- The stablecoin x402 gateway: a Go program in which a gateway sells resources over HTTP 402, an
-- agent pays with an EIP-3009 authorization under a mandate of its delegator, and a ledger and a
-- journal keep the books.
--
-- Parts and files:
--   Base          shared names, integers (`*big.Int`, `int64`), `float64`, texts, maps
--   Eth           go-ethereum as a parameter: hex, keccak, signature recovery
--   Wire          x402/types.go and the JSON structs
--   Codes         x402/errcodes.go
--   Mandate       x402/mandate.go: EIP-712 hash, VerifyMandate, ToMandate, WithinScope
--   Confirmation  x402/confirmation.go
--   Accounts      the accounting of x402/policy_mandate.go: reserve, commit, release, prune
--   Policy        x402/policy.go, policy_table.go, policy_identity.go, policy_eligibility.go,
--                 policy_mandate.go, history.go: `Decide` and `Settled`, `Chain`
--   Journal       x402/journal.go, x402/outbox.go: the file and its replay, `Append`,
--                 `MarkPublished`, `drain`
--   Ledger        ledger/ledger.go, ledger/incremental.go: `Sync`, `Reconcile`, `SyncIncremental`,
--                 over the answers of a node; the pending window has the newest block first
--   Reserve       reserve/reserve.go
--   Redeem        x402/redeem.go, cmd/issuer/main.go: `ParseAuthorization`, `runRedeem`
--   Wallet        wallet/wallet.go: EIP-3009 authorizations, signing and recovery
--   Facilitator   x402/facilitator.go, x402/facilitator_local.go, x402/facilitator_remote.go,
--                 cmd/facilitator/main.go: `Verify` and `Settle`, here and behind HTTP
--   Receipt       x402/receipt.go
--   Agent         x402/agent.go, x402/grant.go, x402/grant_table.go: `buildPayment`, grants
--   Gateway       x402/gateway.go: `verifyAndSettle` with all it calls, the journal's decision and
--                 revocation entries, `RevokeMandate`, `AttachJournal`
--   Session       x402/session.go, and `Middleware` of x402/gateway.go
--   Tests         runs at concrete inputs
--
-- How the model reads the source. A Go function is a function of the same name in snake_case, a
-- method that changes an object returns the new object, and an error return is `none`, or a value
-- of a result type where the caller looks at it; the text of Go errors is kept only in decisions, and the
-- fixed ones in verdicts and refusals.
-- Addresses and 32-byte values are numbers. A hash input is the list of its 32-byte words, so a
-- hash parameter takes words; integers of 2 ^ 256 and more, whose words would be longer, are not
-- told apart from it. Maps are association lists in which a key stands once; a sum over a map is
-- taken in the order of the list. `time.Time` is a number of nanoseconds since 1970, a duration an
-- `int64` with its wrap-around; the clock is read once in an operation. Mutexes make each operation
-- on the accounts, the journal and the history atomic, so interleavings are sequences of
-- operations. The policies are the repository's, and the mandate policies of a chain share one
-- state, which is what the commands build.
--
-- What a node answers during a call of the ledger, what a write to a file does (written, nothing,
-- cut short, not synced) and what a sink answers are parameters. Files are lists of lines, with the
-- unterminated line at the end if there is one; block numbers are `uint64`, and the theorem that
-- needs their successor not to wrap says so.
--
-- All recursion is structural. Only the printing of a decimal takes a number of steps, n + 1 for n,
-- which is more than its digits.
--
-- A request is one step of the gateway, but in Gateway/Races, where the look into the in-flight map
-- and the rest of the request are two. The record `World` has what it meets outside: the clock, the
-- answers of the facilitator, the deliverer, the refunder and the chain head, what each write to the
-- journal does, and the id of a new session or receipt. The calls that change something outside are
-- kept in a list, in their order. The facilitator of the theorems on budgets and on the agent is the
-- local one; the remote one, in front of the service of cmd/facilitator, gives its answers.
--
-- Not modelled: base64 and JSON coding (a decision table starts from the decoded JSON, a payment
-- header is its payload or fails to decode), the random numbers, the signing of mandates, HTTP with
-- the agent's side of it, logging, metrics, the transfers of
-- delivery and refund, contract bindings, the simulation, the commands, but for
-- the handlers of cmd/facilitator and the redemption of cmd/issuer, and the demo.
pub mod Base
pub mod Eth
pub mod Wire
pub mod Codes
pub mod Mandate
pub mod Accounts
pub mod Confirmation
pub mod Policy
pub mod Journal
pub mod Wallet
pub mod Receipt
pub mod Facilitator
pub mod Agent
pub mod Ledger
pub mod Gateway
pub mod Session
pub mod Reserve
pub mod Redeem
pub mod Tests
