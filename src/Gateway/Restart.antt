-- ===== src/Gateway/Restart.antt =====
-- The start from a journal: x402/gateway.go `AttachJournal`, `restoreAccounting`.
use stablecoin_x402_gateway.Base.{
  ℕ, ◌*◌, not, ◌||◌, Option, none, some, List, [], ◌∷◌, string_eq, ◌==◌, if◌then◌else◌,
}
use stablecoin_x402_gateway.Base.Int.{ℤ, pos, negsuc}
use stablecoin_x402_gateway.Base.Text.{set_string}
use stablecoin_x402_gateway.Eth.{Eth, parse_bytes32}
use stablecoin_x402_gateway.Journal.{Journal, JournalEntry, DecisionRecord, RevocationRecord}
use stablecoin_x402_gateway.Policy.Chain.{mandate_policy}
use stablecoin_x402_gateway.Policy.State.{PolicyState, restore_spend, revoke}
use stablecoin_x402_gateway.Gateway.Defs.{
  Gateway, GatewayState, SettlementRecord, policy_of, with_policy_state,
}

-- `time.Unix(at, 0)`, for the times from 1970 on.
unfoldable pub from_unix : ℤ → ℕ
from_unix (pos n) = n * 1_000_000_000
from_unix (negsuc n) = 0

unfoldable pub restored_record : Eth → JournalEntry → SettlementRecord
unfolding set_string from_unix
restored_record eth e = record {
  payer = eth.hex_to_address e.payer;
  amount = set_string e.amount;
  tx_hash = eth.hex_to_hash e.tx_hash;
  time = from_unix e.at;
  delivery_tx = 0;
}

unfoldable pub restored_settlements : Eth → List JournalEntry → List SettlementRecord
unfolding restored_record
restored_settlements eth [] = []
restored_settlements eth (e ∷ es) =
    let rest = restored_settlements eth es in
    if e.kind == "" then restored_record eth e ∷ rest else rest

unfoldable pub restore_parsed : ℤ → Option ℕ → Option ℤ → PolicyState → PolicyState
unfolding restore_spend from_unix
restore_parsed at (some id) (some amount) s = restore_spend id (from_unix at) amount s
restore_parsed at _ _ s = s

unfoldable pub restore_decision : Eth → ℤ → Option DecisionRecord → PolicyState → PolicyState
unfolding restore_parsed parse_bytes32 set_string
restore_decision eth at none s = s
restore_decision eth at (some d) s =
    if not d.settled || d.mandate_id == ""
    then s
    else restore_parsed at (parse_bytes32 eth d.mandate_id) (set_string d.amount) s

unfoldable pub restore_revocation : Eth → Option RevocationRecord → PolicyState → PolicyState
unfolding parse_bytes32 revoke
restore_revocation eth none s = s
restore_revocation eth (some r) s = elim (parse_bytes32 eth r.mandate_id) [
  | none ↦ s
  | some id ↦ revoke (eth.hex_to_address r.delegator) id s
]

unfoldable pub restore_entry : Eth → JournalEntry → PolicyState → PolicyState
unfolding restore_decision restore_revocation
restore_entry eth e s =
    if e.kind == "decision"
    then restore_decision eth e.at e.decision s
    else if e.kind == "revocation"
    then restore_revocation eth e.revocation s
    else s

unfoldable pub restore_entries : Eth → List JournalEntry → PolicyState → PolicyState
unfolding restore_entry
restore_entries eth [] s = s
restore_entries eth (e ∷ es) s = restore_entries eth es (restore_entry eth e s)

unfoldable pub restore_accounting : Gateway → Journal → GatewayState → GatewayState
unfolding restore_entries mandate_policy
restore_accounting g j s = elim (mandate_policy (policy_of g)) [
  | none ↦ s
  | some _ ↦ with_policy_state (restore_entries g.eth j.entries s.policy_state) s
]

unfoldable pub attach_journal : Gateway → Journal → GatewayState → GatewayState
unfolding restore_accounting restored_settlements
attach_journal g j s =
    restore_accounting g j
      (record s { journal = some j; settlements = restored_settlements g.eth j.entries })
