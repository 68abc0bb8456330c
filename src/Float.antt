-- ===== src/Float.antt =====
-- What the Rust code does with an `f64`. The hardware's arithmetic is not part of the repository:
-- it is an instance of `F64`, and what the proofs rely on are the named laws of `IsIeee`, each of
-- which IEEE 754 guarantees with rounding, infinities and NaN.
pub mod Fixed
use pokemon_rs.Prelude.{ℕ, ◌^◌, ◌≤◌, ◌<◌, ◌≡◌, Bool, true, false, if◌then◌else◌}

pub record F64 (F : Type 0) : Type 0 where
  -- The literal m / 10 ^ k.
  pub decimal : ℕ → ℕ → F
  -- `n as f64`
  pub of_u64 : ℕ → F
  pub add : F → F → F
  pub sub : F → F → F
  pub mul : F → F → F
  pub div : F → F → F
  pub neg : F → F
  pub lt : F → F → Bool
  pub le : F → F → Bool
  pub sqrt : F → F
  pub ln : F → F
  pub cos : F → F
  pub pi : F
  pub epsilon : F
  -- `x.round() as u64`
  pub round_u64 : F → ℕ

module _ {F : Type 0} ⦃f : F64 F⦄ where
  abbrev pub nought : F
  nought = f.decimal 0 0

  infix 4 ◌≼◌
  abbrev pub ◌≼◌ : F → F → Type 0
  x ≼ y = f.le x y ≡ true

  -- `x <= x` fails for NaN alone.
  abbrev pub IsNumber : F → Type 0
  IsNumber x = x ≼ x

  -- `f64::max`: a NaN operand yields the other one.
  abbrev pub fmax : F → F → F
  fmax a b = if f.le a a then (if f.lt a b then b else a) else b

  -- `f64::min`
  abbrev pub fmin : F → F → F
  fmin a b = if f.le a a then (if f.lt b a then b else a) else b

  -- `f64::clamp`: a NaN stays NaN.
  abbrev pub clamp : F → F → F → F
  clamp x lo hi = let y = if f.lt x lo then lo else x in if f.lt hi y then hi else y

pub record IsIeee (F : Type 0) ⦃f : F64 F⦄ : Type 0 where
  pub le_number : (x y : F) → x ≼ y → (x ≼ x) × (y ≼ y)
  pub le_trans : (x y z : F) → x ≼ y → y ≼ z → x ≼ z
  pub le_of_lt : (x y : F) → f.lt x y ≡ true → x ≼ y
  pub le_of_not_lt : (x y : F) → x ≼ x → y ≼ y → f.lt x y ≡ false → y ≼ x
  pub not_lt_of_le : (x y : F) → x ≼ y → f.lt y x ≡ false
  pub decimal_nonneg : (m k : ℕ) → f.decimal 0 0 ≼ f.decimal m k
  pub numeral_mono : (m n : ℕ) → m ≤ n → f.decimal m 0 ≼ f.decimal n 0
  -- Rounding does not change the sign, and x <= y gives x - z <= y - z.
  pub sub_nonneg : (x y : F) → f.lt x y ≡ false → f.lt (f.sub x y) (f.decimal 0 0) ≡ false
  pub add_nonneg :
      (x y : F)
      → f.lt x (f.decimal 0 0) ≡ false
      → f.lt y (f.decimal 0 0) ≡ false
      → f.lt (f.add x y) (f.decimal 0 0) ≡ false
  pub sub_negative : (x y : F) → f.lt y (f.decimal 0 0) ≡ true → f.lt (f.sub x y) x ≡ false
  pub add_negative :
      (l x y : F) → f.lt y (f.decimal 0 0) ≡ true → f.lt l x ≡ false → f.lt l (f.add x y) ≡ false
  pub lt_negative :
      (x y : F) → f.lt y (f.decimal 0 0) ≡ true → f.lt x (f.decimal 0 0) ≡ false → f.lt x y ≡ false
  pub neg_nonpos : (x : F) → f.decimal 0 0 ≼ x → f.neg x ≼ f.decimal 0 0
  -- Such a literal is finite.
  pub mul_unit :
      (x : F) (m k : ℕ)
      → m < 2 ^ 53
      → f.decimal 0 0 ≼ x
      → x ≼ f.decimal 1 0
      → (f.decimal 0 0 ≼ f.mul x (f.decimal m k)) × (f.mul x (f.decimal m k) ≼ f.decimal m k)
