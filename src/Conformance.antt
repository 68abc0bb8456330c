-- ===== src/Conformance.antt =====
-- The tests that stand beside the code in controller/src and cli/src, as Boolean functions under
-- the names that they have there. An identifier that a test draws is a number and a literal is a
-- number of ten-thousandths. A test that panics fails.
mod Machines
mod Rewards
mod Stores
mod Events
mod Replay
mod Service
mod Routes
mod Tools
use pokemon_rs.Prelude.{ℕ, Bool, true, false, ◌&&◌, Option, none, some, Result, ok, err}
use pokemon_rs.Float.Fixed.{Fixed, fixed_f64}

abbrev pub is_ok : {E A : Type 0} → Result E A → Bool
is_ok (ok _) = true
is_ok (err _) = false

abbrev pub is_err : {E A : Type 0} → Result E A → Bool
is_err (ok _) = false
is_err (err _) = true

-- `unwrap()` before the rest of a test.
abbrev pub ok_and : {E A : Type 0} → Result E A → (A → Bool) → Bool
ok_and (ok a) p = p a
ok_and (err _) p = false

abbrev pub some_and : {A : Type 0} → Option A → (A → Bool) → Bool
some_and (some a) p = p a
some_and none p = false

-- `matches!(r, Err(..))`
abbrev pub err_and : {E A : Type 0} → Result E A → (E → Bool) → Bool
err_and (ok _) p = false
err_and (err e) p = p e

-- The literal m / 10 ^ k.
abbrev pub literal : ℕ → ℕ → Fixed
literal m k = fixed_f64.decimal m k

-- `(a - b).abs() < 1e-9`, which says of ten-thousandths that they are the same.
abbrev pub close : Fixed → Fixed → Bool
close a b = fixed_f64.le a b && fixed_f64.le b a

-- `(a - b).abs() < 0.001`
abbrev pub near : Fixed → Fixed → Bool
near a b =
    fixed_f64.lt (fixed_f64.sub a b) (literal 1 3) && fixed_f64.lt (fixed_f64.sub b a) (literal 1 3)
