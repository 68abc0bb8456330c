-- ===== src/Prelude/Equality.antt =====
-- Decidable equality as a Boolean test, by instances; texts are lists of code points.
use Prim.Native.Nat.{ℕ}
use mathlib.Core.Path.{◌≡◌, refl}
use mathlib.Core.Logic.{◌↔◌}
use mathlib.Core.Bool.{Bool, true, false, ◌&&◌}
use mathlib.Core.List.{List, [], ◌∷◌}
use Prim.Native.Char.{code}
use Prim.Native.String.{String}
use native.Mathlib.Omega.{arith}
use pokemon_rs.Prelude.Tests.{nat_beq, nat_beq_iff}

-- A Rust `String` is a list of code points.
abbrev pub Text : Type 0
Text = List ℕ

abbrev pub codes : String → Text
codes String.[] = []
codes (String.◌∷◌ c s) = code c ∷ codes s

abbrev pub text_beq : Text → Text → Bool
text_beq [] [] = true
text_beq (a ∷ s) (b ∷ t) = nat_beq a b && text_beq s t
text_beq _ _ = false

pub text_beq_iff : (s t : Text) → (text_beq s t ≡ true) ↔ (s ≡ t)
text_beq_iff [] [] = ground arith
text_beq_iff [] (b ∷ t) = ground arith
text_beq_iff (a ∷ s) [] = ground arith
text_beq_iff (a ∷ s) (b ∷ t) = ground (arith, text_beq_iff s t)

-- A type with a Boolean test that decides equality.
pub record BoolEq {ℓ} (A : Type ℓ) : Type ℓ where
  pub eqb : A → A → Bool
  pub eqb_iff : (x y : A) → (eqb x y ≡ true) ↔ (x ≡ y)

module _ {ℓ} {A : Type ℓ} ⦃d : BoolEq A⦄ where
  infix 50 ◌==◌
  abbrev pub ◌==◌ : A → A → Bool
  ◌==◌ x y = d.eqb x y

  pub eqb_refl : (x : A) → (x == x) ≡ true
  eqb_refl x = (d.eqb_iff x x).1 refl

instance abbrev pub text_eq : BoolEq Text
text_eq = record { eqb = text_beq; eqb_iff = text_beq_iff }

instance abbrev pub nat_eq : BoolEq ℕ
nat_eq = record { eqb = nat_beq; eqb_iff = nat_beq_iff }
