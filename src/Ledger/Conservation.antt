-- ===== src/Ledger/Conservation.antt =====
-- The supply and the balances of the ledger agree, whatever the chain answers.
use stablecoin_x402_gateway.Base.{
  ℕ, ◌≡◌, refl, sym, ◌∙◌, List, [], ◌∷◌, inl, inr, Bool-cases, nat_beq, nat_eq,
}
use stablecoin_x402_gateway.Base.Int.{ℤ, pos, ◌+ℤ◌, ◌-ℤ◌, neg, int_laws}
use stablecoin_x402_gateway.Base.Dict.{
  Dict, IsMap, lookup, erase, insert, erase_absent, insert-IsMap,
}
use stablecoin_x402_gateway.Ledger.Totals.{
  TransferEvent, Snapshot, add_balance, balance_in, take_from, give_to, apply_transfer, apply_event,
  apply_events, supply, no_transfers,
}
use stablecoin_x402_gateway.Ledger.Reconcile.{sum_balances}

zero_sum : pos 0 ≡ pos 0 +ℤ pos 0
unfolding ◌+ℤ◌
zero_sum = refl

sum_balances-erase :
    (a : ℕ) (m : Dict ℕ ℤ) → IsMap m → sum_balances m ≡ balance_in a m +ℤ sum_balances (erase a m)
unfolding sum_balances erase lookup balance_in
sum_balances-erase a [] h = zero_sum
sum_balances-erase a ((c, b) ∷ m) h = grind (int_laws, sum_balances-erase a m h.1, erase_absent a m)

sum_balances-add_balance :
    (a : ℕ) (delta : ℤ) (m : Dict ℕ ℤ)
    → IsMap m
    → sum_balances (add_balance a delta m) ≡ sum_balances m +ℤ delta
unfolding sum_balances add_balance insert
sum_balances-add_balance a delta m h = grind (int_laws, sum_balances-erase a m h)

unfoldable pub IsConserved : Snapshot → Type 0
IsConserved s = (supply s ≡ sum_balances s.balances) × IsMap s.balances

take_from-sum :
    (ev : TransferEvent) (s : Snapshot)
    → IsConserved s
    → (supply (take_from ev s) ≡ sum_balances (take_from ev s).balances +ℤ pos ev.value)
      × IsMap (take_from ev s).balances
unfolding IsConserved take_from supply add_balance
take_from-sum ev s h = elim (Bool-cases (nat_beq ev.from_address 0)) [
  | inl e ↦ rw e (grind int_laws, h.1)
  | inr e ↦ rw e (
    grind (int_laws, sum_balances-add_balance ev.from_address (neg (pos ev.value)) s.balances h.1),
    insert-IsMap ev.from_address _ s.balances h.1,
  )
]

give_to-IsConserved :
    (ev : TransferEvent) (s : Snapshot)
    → supply s ≡ sum_balances s.balances +ℤ pos ev.value
    → IsMap s.balances
    → IsConserved (give_to ev s)
unfolding IsConserved give_to supply add_balance
give_to-IsConserved ev s h m = elim (Bool-cases (nat_beq ev.to_address 0)) [
  | inl e ↦ rw e (grind int_laws, m)
  | inr e ↦ rw e (
    h ∙ sym (sum_balances-add_balance ev.to_address (pos ev.value) s.balances m),
    insert-IsMap ev.to_address _ s.balances m,
  )
]

apply_event-IsConserved :
    (ev : TransferEvent) (s : Snapshot) → IsConserved s → IsConserved (apply_event ev s)
unfolding apply_event apply_transfer IsConserved supply
apply_event-IsConserved ev s h =
    let (sum, m) = take_from-sum ev s h in give_to-IsConserved ev (take_from ev s) sum m

-- Tokens are conserved: no transfer log changes the supply but by a mint or a burn, so the
-- supply is the sum of the balances after any events.
pub apply_events-IsConserved :
    (evs : List TransferEvent) (s : Snapshot) → IsConserved s → IsConserved (apply_events evs s)
unfolding apply_events
apply_events-IsConserved [] s h = h
apply_events-IsConserved (ev ∷ evs) s h =
    apply_events-IsConserved evs (apply_event ev s) (apply_event-IsConserved ev s h)

pub no_transfers-IsConserved : IsConserved no_transfers
unfolding IsConserved supply sum_balances ◌-ℤ◌
no_transfers-IsConserved = (refl, tt)
