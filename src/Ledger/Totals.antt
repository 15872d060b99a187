-- ===== src/Ledger/Totals.antt =====
-- Transfer events and the totals that they add up to: ledger/ledger.go.
use stablecoin_x402_gateway.Base.{
  ℕ, suc, ◌%◌, ◌^◌, Option, none, some, List, [], ◌∷◌, if◌then◌else◌, nat_beq, nat_eq,
}
use stablecoin_x402_gateway.Base.Int.{ℤ, pos, ◌+ℤ◌, ◌-ℤ◌, neg}
use stablecoin_x402_gateway.Base.Dict.{Dict, lookup, insert}

-- `types.Log`: topics are 32-byte numbers, the data its bytes read big-endian.
pub record Log : Type 0 where
  pub topics : List ℕ
  pub data_value : ℕ
  pub block_number : ℕ
  pub block_hash : ℕ

pub record TransferEvent : Type 0 where
  pub from_address : ℕ
  pub to_address : ℕ
  pub value : ℕ

-- The totals that `Ledger` and `Snapshot` both have.
pub record Snapshot : Type 0 where
  pub minted : ℤ
  pub burned : ℤ
  pub balances : Dict ℕ ℤ
  pub events : ℕ

-- `resetFinalized`
abbrev pub no_transfers : Snapshot
no_transfers = record { minted = pos 0; burned = pos 0; balances = []; events = 0 }

-- `common.BytesToAddress` keeps the last 20 bytes. `none` is ok = false.
unfoldable pub parse_transfer_log : Log → Option TransferEvent
parse_transfer_log lg = go lg.topics
  where
    go : List ℕ → Option TransferEvent
    go (_ ∷ from_topic ∷ to_topic ∷ []) = some (record {
      from_address = from_topic % 2 ^ 160;
      to_address = to_topic % 2 ^ 160;
      value = lg.data_value;
    })
    go _ = none

unfoldable pub parse_transfer_logs : List Log → List TransferEvent
parse_transfer_logs [] = []
parse_transfer_logs (lg ∷ logs) =
    let rest = parse_transfer_logs logs in
    elim (parse_transfer_log lg) [ none ↦ rest | some ev ↦ ev ∷ rest ]

-- `m[a]`, where a missing account has 0.
unfoldable pub balance_in : ℕ → Dict ℕ ℤ → ℤ
balance_in a m = elim (lookup a m) [ none ↦ pos 0 | some b ↦ b ]

unfoldable pub add_balance : ℕ → ℤ → Dict ℕ ℤ → Dict ℕ ℤ
unfolding balance_in
add_balance a delta m = insert a (balance_in a m +ℤ delta) m

unfoldable pub take_from : TransferEvent → Snapshot → Snapshot
take_from ev s =
    if nat_beq ev.from_address 0
    then record s { minted = s.minted +ℤ pos ev.value }
    else record s { balances = add_balance ev.from_address (neg (pos ev.value)) s.balances }

unfoldable pub give_to : TransferEvent → Snapshot → Snapshot
give_to ev s =
    if nat_beq ev.to_address 0
    then record s { burned = s.burned +ℤ pos ev.value }
    else record s { balances = add_balance ev.to_address (pos ev.value) s.balances }

unfoldable pub apply_transfer : TransferEvent → Snapshot → Snapshot
unfolding take_from give_to
apply_transfer ev s = give_to ev (take_from ev s)

-- `l.applyEvent(ev); l.Events++`, and the loop over the events of a block.
unfoldable pub apply_event : TransferEvent → Snapshot → Snapshot
apply_event ev s = let t = apply_transfer ev s in record t { events = suc t.events }

unfoldable pub apply_events : List TransferEvent → Snapshot → Snapshot
apply_events [] s = s
apply_events (ev ∷ evs) s = apply_events evs (apply_event ev s)

unfoldable pub supply : Snapshot → ℤ
supply s = s.minted -ℤ s.burned

unfoldable pub balance_of : ℕ → Snapshot → ℤ
unfolding balance_in
balance_of a s = balance_in a s.balances
