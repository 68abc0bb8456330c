-- ===== src/Simulator/Bounds.antt =====
-- Bounds on what the simulated player draws (controller/src/simulator_human_proxy/mod.rs).
use pokemon_rs.Prelude.{ℕ, ◌+◌, ◌*◌, ◌/◌, ◌%◌, ◌<◌, ◌≡◌, refl, true, false, arith, nat_beq}
use pokemon_rs.Float.{F64, IsIeee, ◌≼◌, nought, fmax, fmin, IsNumber}
use pokemon_rs.Simulator.{conservative, aggressive, mixed_adaptive, gaussian_sample, next_stake}

module _ {F : Type 0} ⦃f : F64 F⦄ (laws : IsIeee F) where
  le-fmax : (x lo : F) → IsNumber lo → lo ≼ fmax x lo
  le-fmax x lo num = ground (arith, laws.le_of_not_lt x lo)

  fmin-le : (x hi : F) → IsNumber hi → fmin x hi ≼ hi
  fmin-le x hi num = ground (arith, laws.le_of_not_lt hi x)

  numeral-IsNumber : (m k : ℕ) → IsNumber (f.decimal m k)
  numeral-IsNumber m k = (laws.le_number nought (f.decimal m k) (laws.decimal_nonneg m k)).1

  -- A sample is a number that is not negative, whatever the seeds, the mean and the deviation are,
  -- NaN and 0 included.
  pub gaussian_sample_nonneg :
      (mean std_dev seed1 seed2 : F) → nought ≼ gaussian_sample mean std_dev seed1 seed2
  unfolding gaussian_sample
  gaussian_sample_nonneg mean std_dev seed1 seed2 = le-fmax _ nought (numeral-IsNumber 0 0)

  -- The phases of the mixed profile last 20 spins each and alternate, the conservative one first.
  -- Under the laws of IEEE 754, the stake is at least 0.01 in a conservative phase and at most 100
  -- in an aggressive one, whatever the random value is.
  pub next_stake_bounds :
      (k i : ℕ) (r : F)
      → i < 20
      → (next_stake mixed_adaptive (40 * k + i) r ≡ next_stake conservative (40 * k + i) r)
        × (next_stake mixed_adaptive (40 * k + 20 + i) r
            ≡ next_stake aggressive (40 * k + 20 + i) r)
        × (f.decimal 1 2 ≼ next_stake mixed_adaptive (40 * k + i) r)
        × (next_stake mixed_adaptive (40 * k + 20 + i) r ≼ f.decimal 100 0)
  unfolding next_stake
  next_stake_bounds k i r small =
      let calm : nat_beq ((40 * k + i) / 20 % 2) 0 ≡ true = ground arith in
      let bold : nat_beq ((40 * k + 20 + i) / 20 % 2) 0 ≡ false = ground arith in
      rw (calm, bold, next_stake)
        (
          refl,
          refl,
          le-fmax _ (f.decimal 1 2) (numeral-IsNumber 1 2),
          fmin-le _ (f.decimal 100 0) (numeral-IsNumber 100 0),
        )
