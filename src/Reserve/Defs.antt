-- ===== src/Reserve/Defs.antt =====
-- The file of the reserve, its replay and `Append`: reserve/reserve.go.
use stablecoin_x402_gateway.Base.{
  String, Bool, true, false, Option, none, some, List, [], ◌∷◌, ◌++◌, if◌then◌else◌,
}
use stablecoin_x402_gateway.Base.Int.{ℤ, pos, ◌+ℤ◌}
use stablecoin_x402_gateway.Base.Text.{set_string}
use stablecoin_x402_gateway.Base.Decimal.{integer_text}
use stablecoin_x402_gateway.Journal.{WriteOutcome, written, nothing_written, not_synced, cut_short}

pub record Entry : Type 0 where
  pub amount : String
  pub reason : String
  pub at : ℤ

pub data ReserveLine : Type 0 where
  movement : Entry → ReserveLine
  torn_movement : ReserveLine

-- The lines, and the unterminated line at the end, if any.
pub record Reserve : Type 0 where
  pub lines : List ReserveLine
  pub tail : Option ReserveLine
  pub total : ℤ

unfoldable pub replay_amount : ReserveLine → ℤ → ℤ
replay_amount (movement e) total = elim (set_string e.amount) [
  | none ↦ total
  | some amount ↦ total +ℤ amount
]
replay_amount torn_movement total = total

unfoldable pub replay_total : List ReserveLine → ℤ → ℤ
replay_total [] total = total
replay_total (line ∷ lines) total = replay_total lines (replay_amount line total)

unfoldable pub open_reserve : List ReserveLine → Option ReserveLine → Reserve
open_reserve lines tail = record {
  lines = lines;
  tail = tail;
  total = replay_total (elim tail [ none ↦ lines | some line ↦ lines ++ line ∷ [] ]) (pos 0);
}

-- The arguments of `Append`, and the time it reads.
pub record Movement : Type 0 where
  pub delta : ℤ
  pub why : String
  pub now : ℤ

unfoldable pub entry_of : Movement → Entry
entry_of m = record { amount = integer_text m.delta; reason = m.why; at = m.now }

-- A line joins an unterminated one before it.
unfoldable pub put_movement : Movement → Reserve → Reserve
put_movement m r = record r {
  lines = r.lines ++ (elim r.tail [ none ↦ movement (entry_of m) | some _ ↦ torn_movement ]) ∷ [];
  tail = none;
}

-- The Boolean is success: the total moves only after the fsync.
unfoldable pub append_movement : Movement → WriteOutcome → Reserve → Bool × Reserve
unfolding put_movement
append_movement m written r = (true, record (put_movement m r) { total = r.total +ℤ m.delta })
append_movement m nothing_written r = (false, r)
append_movement m not_synced r = (false, put_movement m r)
append_movement m (cut_short whole) r = (
  false,
  record r {
    tail = some (elim r.tail [
      | none ↦ if whole then movement (entry_of m) else torn_movement
      | some _ ↦ torn_movement
    ]);
  },
)

unfoldable pub run_movements : List (Movement × WriteOutcome) → Reserve → Reserve
run_movements [] r = r
run_movements ((m, outcome) ∷ ops) r = run_movements ops (append_movement m outcome r).1
