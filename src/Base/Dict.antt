-- ===== src/Base/Dict.antt =====
-- A Go map, as an association list in which a key stands once.
use mathlib.Core.Path.{◌≡◌, refl, subst}
use mathlib.Core.Bool.{Bool, true, false}
use mathlib.Core.Option.{Option, none, some}
use mathlib.Core.List.{List, [], ◌∷◌}
use native.Mathlib.Omega.{arith}
use stablecoin_x402_gateway.Base.Tests.{if◌then◌else◌, some-eq}
use stablecoin_x402_gateway.Base.Equality.{Eq, ◌==◌, beq_self}

abbrev pub Dict {ℓ κ} : Type ℓ → Type κ → Type (ℓ ⊔ κ)
Dict K V = List (K × V)

module _ {ℓ κ} {K : Type ℓ} {V : Type κ} ⦃e : Eq K⦄ where
  -- `v, ok := m[k]`
  unfoldable pub lookup : K → Dict K V → Option V
  lookup k [] = none
  lookup k ((j, v) ∷ d) = if k == j then some v else lookup k d

  -- `delete(m, k)`
  unfoldable pub erase : K → Dict K V → Dict K V
  erase k [] = []
  erase k ((j, v) ∷ d) = let rest = erase k d in if k == j then rest else (j, v) ∷ rest

  -- `m[k] = v`
  unfoldable pub insert : K → V → Dict K V → Dict K V
  insert k v d = (k, v) ∷ erase k d

  -- No key stands twice.
  abbrev pub IsMap : Dict K V → Type κ
  IsMap [] = Unit
  IsMap ((j, v) ∷ d) = (lookup j d ≡ none) × IsMap d

  pub lookup-erase :
      (k j : K) (d : Dict K V) → lookup j (erase k d) ≡ (if k == j then none else lookup j d)
  unfolding lookup erase
  lookup-erase k j [] = ground arith
  lookup-erase k j ((i, v) ∷ d) =
      ground (arith, lookup-erase k j d, e.beq_iff k i, e.beq_iff j i, e.beq_iff k j)

  pub lookup-insert :
      (k j : K) (v : V) (d : Dict K V)
      → lookup j (insert k v d) ≡ (if k == j then some v else lookup j d)
  unfolding lookup insert
  lookup-insert k j v d = ground (arith, lookup-erase k j d, e.beq_iff j k, e.beq_iff k j)

  pub erase_absent : (k : K) (d : Dict K V) → lookup k d ≡ none → erase k d ≡ d
  unfolding lookup erase
  erase_absent k [] h = refl
  erase_absent k ((i, v) ∷ d) h = ground (arith, erase_absent k d)

  pub erase-insert : (k : K) (v : V) (d : Dict K V) → erase k (insert k v d) ≡ erase k d
  unfolding erase insert
  erase-insert k v d = ground (arith, beq_self k, lookup-erase k k d, erase_absent k (erase k d))

  pub erase-IsMap : (k : K) (d : Dict K V) → IsMap d → IsMap (erase k d)
  unfolding erase
  erase-IsMap k [] h = tt
  erase-IsMap k ((i, v) ∷ d) h = ground (arith, erase-IsMap k d h.1, lookup-erase k i d)

  pub insert-IsMap : (k : K) (v : V) (d : Dict K V) → IsMap d → IsMap (insert k v d)
  unfolding insert
  insert-IsMap k v d h = ground (arith, lookup-erase k k d, beq_self k, erase-IsMap k d h)

  -- Every value of the map has the property.
  abbrev pub AllValues {μ} : (V → Type μ) → Dict K V → Type μ
  AllValues P [] = Unit
  AllValues P ((j, v) ∷ d) = P v × AllValues P d

  pub erase-AllValues {μ} :
      (P : V → Type μ) (k : K) (d : Dict K V) → AllValues P d → AllValues P (erase k d)
  unfolding erase
  erase-AllValues P k [] h = tt
  erase-AllValues P k ((j, v) ∷ d) h = pick (k == j) (erase k d) (erase-AllValues P k d h.1)
    where
      pick :
          (b : Bool) (rest : Dict K V)
          → AllValues P rest
          → AllValues P (if b then rest else (j, v) ∷ rest)
      pick true rest r = r
      pick false rest r = (h.0, r)

  pub insert-AllValues {μ} :
      (P : V → Type μ) (k : K) (v : V) (d : Dict K V)
      → P v
      → AllValues P d
      → AllValues P (insert k v d)
  unfolding insert
  insert-AllValues P k v d p h = (p, erase-AllValues P k d h)

  pub lookup-AllValues {μ} :
      (P : V → Type μ) (k : K) (v : V) (d : Dict K V) → lookup k d ≡ some v → AllValues P d → P v
  unfolding lookup
  lookup-AllValues P k v [] found h = ground arith
  lookup-AllValues P k v ((j, u) ∷ d) found h =
      pick (k == j) (lookup k d) found (λ found'. lookup-AllValues P k v d found' h.1)
    where
      pick :
          (b : Bool) (o : Option V) → (if b then some u else o) ≡ some v → (o ≡ some v → P v) → P v
      pick true o same rest = subst P (some-eq same) h.0
      pick false o same rest = rest same
