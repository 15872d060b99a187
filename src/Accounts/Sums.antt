-- ===== src/Accounts/Sums.antt =====
-- Sums over spends and reservations: later cutoffs see less, and pruning hides nothing.
use stablecoin_x402_gateway.Base.{ℕ, ◌≡◌, refl, some, List, [], ◌∷◌, ◌++◌, arith, All, nat_eq}
use stablecoin_x402_gateway.Base.Int.{ℤ, pos, ◌+ℤ◌, ◌≤ℤ◌, int_laws}
use stablecoin_x402_gateway.Base.Dict.{Dict, lookup, erase, insert, IsMap, erase_absent}
use stablecoin_x402_gateway.Accounts.Window.{Spend, is_recent}
use stablecoin_x402_gateway.Accounts.Defs.{sum_since, count_since, keep_since, sum_reserved}

abbrev pub IsNonneg : Spend → Type 0
IsNonneg s = pos 0 ≤ℤ s.amount

abbrev pub AllReserved : Dict ℕ Spend → Type 0
AllReserved [] = Unit
AllReserved ((_, r) ∷ rs) = IsNonneg r × AllReserved rs

pub sum_since_nonneg : (from : ℤ) (ss : List Spend) → All IsNonneg ss → pos 0 ≤ℤ sum_since from ss
unfolding sum_since
sum_since_nonneg from [] h = omega arith
sum_since_nonneg from (s ∷ ss) h = grind (int_laws, sum_since_nonneg from ss h.1)

pub sum_since-append :
    (from : ℤ) (xs ys : List Spend)
    → sum_since from (xs ++ ys) ≡ sum_since from xs +ℤ sum_since from ys
unfolding sum_since
sum_since-append from [] ys = omega int_laws
sum_since-append from (s ∷ xs) ys = grind (int_laws, sum_since-append from xs ys)

pub sum_since_anti :
    (from to : ℤ) (ss : List Spend)
    → from ≤ℤ to
    → All IsNonneg ss
    → sum_since to ss ≤ℤ sum_since from ss
unfolding sum_since is_recent
sum_since_anti from to [] le h = omega arith
sum_since_anti from to (s ∷ ss) le h = grind (int_laws, sum_since_anti from to ss le h.1)

pub sum_since-keep_since :
    (old from : ℤ) (ss : List Spend)
    → old ≤ℤ from
    → sum_since from (keep_since old ss) ≡ sum_since from ss
unfolding sum_since keep_since is_recent
sum_since-keep_since old from [] le = refl
sum_since-keep_since old from (s ∷ ss) le = grind (arith, sum_since-keep_since old from ss le)

pub count_since-keep_since :
    (old from : ℤ) (ss : List Spend)
    → old ≤ℤ from
    → count_since from (keep_since old ss) ≡ count_since from ss
unfolding count_since keep_since is_recent
count_since-keep_since old from [] le = refl
count_since-keep_since old from (s ∷ ss) le = grind (arith, count_since-keep_since old from ss le)

pub keep_since-All :
    (from : ℤ) (ss : List Spend) → All IsNonneg ss → All IsNonneg (keep_since from ss)
unfolding keep_since
keep_since-All from [] h = tt
keep_since-All from (s ∷ ss) h = ground (arith, keep_since-All from ss h.1)

pub append-All :
    (xs : List Spend) (s : Spend) → All IsNonneg xs → IsNonneg s → All IsNonneg (xs ++ s ∷ [])
append-All [] s h k = (k, tt)
append-All (x ∷ xs) s h k = (h.0, append-All xs s h.1 k)

pub sum_reserved-erase :
    (k : ℕ) (r : Spend) (d : Dict ℕ Spend)
    → IsMap d
    → lookup k d ≡ some r
    → sum_reserved (erase k d) +ℤ r.amount ≡ sum_reserved d
unfolding sum_reserved erase lookup
sum_reserved-erase k r [] h e = cc
sum_reserved-erase k r ((j, s) ∷ d) h e =
    grind (int_laws, erase_absent k d, sum_reserved-erase k r d h.1)

pub sum_reserved-erase_le :
    (k : ℕ) (d : Dict ℕ Spend) → AllReserved d → sum_reserved (erase k d) ≤ℤ sum_reserved d
unfolding sum_reserved erase
sum_reserved-erase_le k [] h = omega arith
sum_reserved-erase_le k ((j, s) ∷ d) h = grind (int_laws, sum_reserved-erase_le k d h.1)

pub erase-AllReserved : (k : ℕ) (d : Dict ℕ Spend) → AllReserved d → AllReserved (erase k d)
unfolding erase
erase-AllReserved k [] h = tt
erase-AllReserved k ((j, s) ∷ d) h = ground (arith, erase-AllReserved k d h.1)

pub lookup-IsNonneg :
    (k : ℕ) (r : Spend) (d : Dict ℕ Spend) → AllReserved d → lookup k d ≡ some r → IsNonneg r
unfolding lookup
lookup-IsNonneg k r [] h e = cc
lookup-IsNonneg k r ((j, s) ∷ d) h e = ground (arith, lookup-IsNonneg k r d h.1)

pub insert-AllReserved :
    (k : ℕ) (r : Spend) (d : Dict ℕ Spend) → IsNonneg r → AllReserved d → AllReserved (insert k r d)
unfolding insert
insert-AllReserved k r d h v = (h, erase-AllReserved k d v)
