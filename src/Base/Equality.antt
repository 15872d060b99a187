-- ===== src/Base/Equality.antt =====
-- Equality tests as an interface, with its instances at numbers and texts.
use Prim.Native.Nat.{ℕ}
use Prim.Native.String.{String}
use mathlib.Core.Bool.{Bool, true, false}
use mathlib.Core.Logic.{◌↔◌, ◌≢◌}
use mathlib.Core.Path.{◌≡◌, refl}
use stablecoin_x402_gateway.Base.Tests.{nat_beq, nat_beq_iff}
use text.Mathlib.Text.{◌==◌ as same_text}
use text.Mathlib.TextEquality.{eq_iff as same_text_iff}

-- The key types of Go's maps: == decides equality of two keys.
pub record Eq {ℓ} (K : Type ℓ) : Type ℓ where
  pub beq : K → K → Bool
  pub beq_iff : (k l : K) → (beq k l ≡ true) ↔ (k ≡ l)

module _ {ℓ} {K : Type ℓ} ⦃keys : Eq K⦄ where
  infix 50 ◌==◌
  abbrev pub ◌==◌ : K → K → Bool
  k == l = keys.beq k l

  pub beq-eq : (k l : K) → (k == l) ≡ true → k ≡ l
  beq-eq k l same = (keys.beq_iff k l).0 same

  pub beq_self : (k : K) → (k == k) ≡ true
  beq_self k = (keys.beq_iff k k).1 refl

  pub beq_ne : (k l : K) → k ≢ l → (k == l) ≡ false
  beq_ne k l differ = go (k == l) (beq-eq k l)
    where
      go : (t : Bool) → (t ≡ true → k ≡ l) → t ≡ false
      go true found = absurd (differ (found refl))
      go false found = refl

instance abbrev pub string_eq : Eq String
string_eq = record { beq = same_text; beq_iff = same_text_iff }

instance abbrev pub nat_eq : Eq ℕ
nat_eq = record { beq = nat_beq; beq_iff = nat_beq_iff }
