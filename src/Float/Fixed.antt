-- ===== src/Float/Fixed.antt =====
-- A concrete arithmetic on which the definitions run: signed ten-thousandths, with `none` for NaN.
-- It meets the laws of `IsIeee`, so that they can be met. `sqrt`, `ln` and `cos` are stand-ins.
use native.Mathlib.Nat.{mul-le-mul, le_refl}
use pokemon_rs.Prelude.{
  ℕ, zero, suc, ◌+◌, ◌*◌, ◌/◌, ◌^◌, ◌≤◌, Bool, false, Option, none, some, arith,
}
use pokemon_rs.Prelude.Int.{
  ℤ, pos, negsuc, pos_part, neg_part, sub_ℕ, ◌+ℤ◌, ◌-ℤ◌, ltb_ℤ, leb_ℤ, ◌*ℤ◌,
}
use pokemon_rs.Float.{F64, IsIeee, ◌≼◌}

abbrev pub Fixed : Type 0
Fixed = Option ℤ

abbrev pub on_both : (ℤ → ℤ → ℤ) → Fixed → Fixed → Fixed
on_both g (some a) (some b) = some (g a b)
on_both g _ _ = none

abbrev pub test_both : (ℤ → ℤ → Bool) → Fixed → Fixed → Bool
test_both g (some a) (some b) = g a b
test_both g _ _ = false

abbrev pub scale_down : ℤ → ℤ
scale_down (pos n) = pos (n / 10000)
scale_down (negsuc n) = sub_ℕ 0 (suc n / 10000)

abbrev pub div_ℤ : ℤ → ℤ → Fixed
div_ℤ a (pos zero) = none
div_ℤ (pos a) (pos (suc b)) = some (pos (a * 10000 / suc b))
div_ℤ (pos a) (negsuc b) = some (sub_ℕ 0 (a * 10000 / suc b))
div_ℤ (negsuc a) (pos (suc b)) = some (sub_ℕ 0 (suc a * 10000 / suc b))
div_ℤ (negsuc a) (negsuc b) = some (pos (suc a * 10000 / suc b))

abbrev pub div_fixed : Fixed → Fixed → Fixed
div_fixed (some a) (some b) = div_ℤ a b
div_fixed _ _ = none

abbrev pub neg_fixed : Fixed → Fixed
neg_fixed (some a) = some (sub_ℕ (neg_part a) (pos_part a))
neg_fixed none = none

abbrev pub round_fixed : Fixed → ℕ
round_fixed (some (pos n)) = (n + 5000) / 10000
round_fixed _ = 0

abbrev pub mul_ℤ : ℤ → ℤ → ℤ
unfolding ◌*ℤ◌
mul_ℤ a b = scale_down (a *ℤ b)

instance abbrev pub fixed_f64 : F64 Fixed
fixed_f64 = record {
  decimal = λ m k. some (pos (m * 10000 / 10 ^ k));
  of_u64 = λ n. some (pos (n * 10000));
  add = on_both ◌+ℤ◌;
  sub = on_both ◌-ℤ◌;
  mul = on_both mul_ℤ;
  div = div_fixed;
  neg = neg_fixed;
  lt = test_both ltb_ℤ;
  le = test_both leb_ℤ;
  sqrt = λ x. x;
  ln = λ x. x;
  cos = λ x. x;
  pi = some (pos 31416);
  epsilon = some (pos 1);
  round_u64 = round_fixed;
}

mul_unit_fixed :
    (x w : Fixed)
    → some (pos 0) ≼ x
    → x ≼ some (pos 10000)
    → some (pos 0) ≼ w
    → (some (pos 0) ≼ fixed_f64.mul x w) × (fixed_f64.mul x w ≼ w)
unfolding ◌*ℤ◌
mul_unit_fixed (some (pos a)) (some (pos b)) h k l =
    let small : a ≤ 10000 = ground arith in ground (arith, mul-le-mul small (le_refl b))
mul_unit_fixed x w h k l = ground arith

pub Fixed-IsIeee : IsIeee Fixed
unfolding ◌+ℤ◌ ◌-ℤ◌
Fixed-IsIeee = record {
  le_number = λ x y h. ground arith;
  le_trans = λ x y z h k. ground arith;
  le_of_lt = λ x y h. ground arith;
  le_of_not_lt = λ x y h k l. ground arith;
  not_lt_of_le = λ x y h. ground arith;
  decimal_nonneg = λ m k. ground arith;
  numeral_mono = λ m n h. ground arith;
  sub_nonneg = λ x y h. ground arith;
  add_nonneg = λ x y h k. ground arith;
  sub_negative = λ x y h. ground arith;
  add_negative = λ l x y h k. ground arith;
  lt_negative = λ x y h k. ground arith;
  neg_nonpos = λ x h. ground arith;
  mul_unit =
      λ x m k small low high. mul_unit_fixed x (fixed_f64.decimal m k) low high (ground arith);
}
