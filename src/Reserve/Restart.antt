-- ===== src/Reserve/Restart.antt =====
-- The reserve total after a restart.
use stablecoin_x402_gateway.Base.{
  ◌≡◌, refl, sym, ◌∙◌, Bool, true, false, none, List, [], ◌∷◌, ◌++◌, All, arith,
}
use mathlib.Core.Path.{subst}
use stablecoin_x402_gateway.Base.Int.{ℤ, pos, ◌+ℤ◌, int_laws}
use stablecoin_x402_gateway.Base.Decimal.{set_string-integer_text}
use stablecoin_x402_gateway.Journal.{WriteOutcome, written, nothing_written, not_synced, cut_short}
use stablecoin_x402_gateway.Reserve.Defs.{
  ReserveLine, movement, Reserve, Movement, replay_amount, replay_total, open_reserve, entry_of,
  put_movement, append_movement, run_movements,
}

replay_total-++ :
    (xs ys : List ReserveLine) (total : ℤ)
    → replay_total (xs ++ ys) total ≡ replay_total ys (replay_total xs total)
unfolding replay_total
replay_total-++ [] ys total = refl
replay_total-++ (x ∷ xs) ys total = replay_total-++ xs ys (replay_amount x total)

abbrev pub is_whole_write : WriteOutcome → Bool
is_whole_write (cut_short whole) = false
is_whole_write _ = true

-- The amounts whose fsync failed.
unfoldable pub unsynced : List (Movement × WriteOutcome) → ℤ
unsynced [] = pos 0
unsynced ((m, not_synced) ∷ ops) = m.delta +ℤ unsynced ops
unsynced ((m, written) ∷ ops) = unsynced ops
unsynced ((m, nothing_written) ∷ ops) = unsynced ops
unsynced ((m, cut_short whole) ∷ ops) = unsynced ops

-- The replayed total is ahead of the total in memory by `ahead`.
record IsAhead (ahead : ℤ) (r : Reserve) : Type 0 where
  is_ahead : replay_total r.lines (pos 0) ≡ r.total +ℤ ahead
  ends_whole : r.tail ≡ none

replay_amount-entry_of :
    (m : Movement) (total : ℤ) → replay_amount (movement (entry_of m)) total ≡ total +ℤ m.delta
unfolding replay_amount entry_of
replay_amount-entry_of m total = rw (replay_amount, set_string-integer_text m.delta) refl

replay_total-put :
    (m : Movement) (r : Reserve)
    → r.tail ≡ none
    → replay_total (put_movement m r).lines (pos 0) ≡ replay_total r.lines (pos 0) +ℤ m.delta
unfolding put_movement replay_total
replay_total-put m r h = rw h (
    replay_total-++ r.lines (movement (entry_of m) ∷ []) (pos 0)
    ∙ replay_amount-entry_of m (replay_total r.lines (pos 0)))

append_movement-IsAhead :
    (m : Movement) (outcome : WriteOutcome) (ahead : ℤ) (r : Reserve)
    → is_whole_write outcome ≡ true
    → IsAhead ahead r
    → IsAhead (ahead +ℤ unsynced ((m, outcome) ∷ [])) (append_movement m outcome r).1
unfolding append_movement unsynced
append_movement-IsAhead m written ahead r w h = record {
  is_ahead = replay_total-put m r h.ends_whole ∙ grind (int_laws, h.is_ahead);
  ends_whole = refl;
}
append_movement-IsAhead m nothing_written ahead r w h = record {
  is_ahead = grind (int_laws, h.is_ahead);
  ends_whole = h.ends_whole;
}
append_movement-IsAhead m not_synced ahead r w h = record {
  is_ahead = replay_total-put m r h.ends_whole ∙ grind (int_laws, h.is_ahead);
  ends_whole = refl;
}
append_movement-IsAhead m (cut_short whole) ahead r w h = ground arith

add_unsynced_nil : (a : ℤ) → a +ℤ unsynced [] ≡ a
unfolding unsynced
add_unsynced_nil a = grind int_laws

unsynced_cons :
    (a : ℤ) (m : Movement) (outcome : WriteOutcome) (ops : List (Movement × WriteOutcome))
    → a +ℤ unsynced ((m, outcome) ∷ []) +ℤ unsynced ops ≡ a +ℤ unsynced ((m, outcome) ∷ ops)
unfolding unsynced
unsynced_cons a m written ops = grind int_laws
unsynced_cons a m nothing_written ops = grind int_laws
unsynced_cons a m not_synced ops = grind int_laws
unsynced_cons a m (cut_short whole) ops = grind int_laws

run_movements-IsAhead :
    (ops : List (Movement × WriteOutcome)) (ahead : ℤ) (r : Reserve)
    → All (λ (p : Movement × WriteOutcome). is_whole_write p.1 ≡ true) ops
    → IsAhead ahead r
    → IsAhead (ahead +ℤ unsynced ops) (run_movements ops r)
unfolding run_movements
run_movements-IsAhead [] ahead r w h = subst (λ a. IsAhead a r) (sym (add_unsynced_nil ahead)) h
run_movements-IsAhead ((m, outcome) ∷ ops) ahead r w h =
    subst (λ a. IsAhead a (run_movements ops (append_movement m outcome r).1))
      (unsynced_cons ahead m outcome ops)
      (run_movements-IsAhead ops (ahead +ℤ unsynced ((m, outcome) ∷ [])) _ w.1
        (append_movement-IsAhead m outcome ahead r w.0 h))

-- After a restart the reserve total is the one in memory plus the amounts whose fsync failed,
-- where no write was cut short: an append that failed on its fsync still counts.
pub open_reserve-run :
    (lines : List ReserveLine) (ops : List (Movement × WriteOutcome))
    → All (λ (p : Movement × WriteOutcome). is_whole_write p.1 ≡ true) ops
    → let r = run_movements ops (open_reserve lines none) in
      (open_reserve r.lines r.tail).total ≡ r.total +ℤ unsynced ops
unfolding open_reserve
open_reserve-run lines ops w =
    let start : IsAhead (pos 0) (open_reserve lines none) = record {
      is_ahead = grind int_laws;
      ends_whole = refl;
    } in
    let after = run_movements-IsAhead ops (pos 0) (open_reserve lines none) w start in
    rw after.ends_whole (after.is_ahead ∙ grind int_laws)
