-- ===== src/Common/Equality.antt =====
-- Go's `==` as an interface that a type with a decidable equality implements: numbers here, lists
-- of such values, and signed numbers in Decimal.
use Prim.Native.Nat.{ℕ}
use mathlib.Core.Path.{◌≡◌}
use mathlib.Core.Logic.{◌↔◌}
use mathlib.Core.Bool.{Bool, true, false, ◌&&◌}
use mathlib.Core.List.{List, [], ◌∷◌}
use native.Mathlib.Omega.{arith}
use psychic_computing_machin.Common.Tests.{eqb, eqb_iff}

-- A Boolean test of sameness that answers for the equality of the model.
pub record Eq {ℓ} (V : Type ℓ) : Type ℓ where
  pub same : V → V → Bool
  pub same_iff : (v w : V) → (same v w ≡ true) ↔ (v ≡ w)

-- Two slices are the same when their elements are, in order.
module _ {ℓ} {V : Type ℓ} ⦃eq : Eq V⦄ where
  abbrev pub same_list : List V → List V → Bool
  same_list [] [] = true
  same_list (v ∷ vs) (w ∷ ws) = eq.same v w && same_list vs ws
  same_list _ _ = false

  pub same_list_iff : (vs ws : List V) → (same_list vs ws ≡ true) ↔ (vs ≡ ws)
  same_list_iff [] [] = ground arith
  same_list_iff [] (w ∷ ws) = ground arith
  same_list_iff (v ∷ vs) [] = ground arith
  same_list_iff (v ∷ vs) (w ∷ ws) = ground (arith, eq.same_iff v w, same_list_iff vs ws)

  infix 50 ◌==◌
  abbrev pub ◌==◌ : V → V → Bool
  v == w = eq.same v w

  pub ==_iff : (v w : V) → ((v == w) ≡ true) ↔ (v ≡ w)
  ==_iff v w = eq.same_iff v w

instance abbrev pub list_eq {ℓ} : {V : Type ℓ} ⦃eq : Eq V⦄ → Eq (List V)
list_eq = record { same = same_list; same_iff = same_list_iff }

instance abbrev pub nat_eq : Eq ℕ
nat_eq = record { same = eqb; same_iff = eqb_iff }
