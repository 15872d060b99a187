-- ===== src/Tests/Reserves.antt =====
-- The reserve ledger on concrete movements.
use stablecoin_x402_gateway.Base.{◌≡◌, refl, none, [], ◌∷◌}
use stablecoin_x402_gateway.Base.Int.{pos, negsuc, ◌+ℤ◌}
use stablecoin_x402_gateway.Base.Text.{set_string}
use stablecoin_x402_gateway.Base.Decimal.{integer_text, digit_char}
use stablecoin_x402_gateway.Journal.{written, nothing_written, not_synced}
use stablecoin_x402_gateway.Reserve.{
  Movement, Reserve, entry_of, open_reserve, replay_total, replay_amount, put_movement,
  append_movement, run_movements,
}
use stablecoin_x402_gateway.Reserve.Restart.{unsynced, open_reserve-run}

abbrev deposit : Movement
deposit = record { delta = pos 100; why = "deposit"; now = pos 1_700_000_000 }

abbrev redemption : Movement
redemption = record { delta = negsuc 29; why = "redemption"; now = pos 1_700_000_060 }

abbrev moved : Reserve
moved =
    run_movements
      ((deposit, written) ∷ (redemption, nothing_written) ∷ (redemption, not_synced) ∷ [])
      (open_reserve [] none)

open_reserve-run_example :
    (open_reserve moved.lines moved.tail).total
    ≡ moved.total
      +ℤ unsynced
          ((deposit, written) ∷ (redemption, nothing_written) ∷ (redemption, not_synced) ∷ [])
open_reserve-run_example =
    open_reserve-run []
      ((deposit, written) ∷ (redemption, nothing_written) ∷ (redemption, not_synced) ∷ [])
      (refl, (refl, (refl, tt)))

-- The run of the example: 100 in memory, 70 after a restart.
open_reserve-moved : (open_reserve moved.lines moved.tail).total ≡ pos 70
unfolding open_reserve run_movements append_movement put_movement entry_of integer_text digit_char
    set_string replay_total replay_amount ◌+ℤ◌
open_reserve-moved = refl
