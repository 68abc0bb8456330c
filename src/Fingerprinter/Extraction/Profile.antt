-- ===== src/Fingerprinter/Extraction/Profile.antt =====
-- Bounds on the statistical profile (controller/src/fingerprinter/extraction.rs).
use pokemon_rs.Prelude.{inl, inr, [], ◌∷◌, arith, Bool-cases, Text}
use pokemon_rs.Prelude.Map.{HashMap}
use pokemon_rs.Float.{F64, IsIeee, ◌≼◌, nought, fmin, IsNumber}
use pokemon_rs.Rl.Reward.Bounds.{clamp_bounds}
use pokemon_rs.Fingerprinter.Extraction.{rtp, spread, build_statistical_profile}

module _ {F : Type 0} ⦃f : F64 F⦄ (laws : IsIeee F) where
  fmin-le : (x hi : F) → IsNumber hi → fmin x hi ≼ hi
  fmin-le x hi num = ground (arith, laws.le_of_not_lt hi x)

  rtp_bounds :
      (stake payout : F)
      → IsNumber (f.div payout stake)
      → (nought ≼ rtp stake payout) × (rtp stake payout ≼ f.decimal 10 0)
  unfolding rtp
  rtp_bounds stake payout num =
      let (low, high) =
        clamp_bounds laws (f.div payout stake) nought (f.decimal 10 0) num
          (laws.decimal_nonneg 10 0) in
      elim (Bool-cases (f.lt nought stake)) [
        | inl staked ↦ rw (staked, rtp) (low, high)
        | inr none_ ↦ rw (none_, rtp) (laws.decimal_nonneg 0 0, laws.decimal_nonneg 10 0)
      ]

  spread_le : (frequencies : HashMap Text F) → spread frequencies ≼ f.decimal 1 0
  unfolding spread
  spread_le [] = laws.decimal_nonneg 1 0
  spread_le (_ ∷ _) =
      fmin-le _ (f.decimal 1 0) (laws.le_number nought (f.decimal 1 0) (laws.decimal_nonneg 1 0)).1

  -- Under the laws of IEEE 754: where the quotient of payout and stake is a number, the profile's
  -- return to player lies between 0 and 10; the volatility is at most 1, whatever the frequencies
  -- are.
  pub build_statistical_profile_bounds :
      (frequencies : HashMap Text F) (stake payout : F)
      → IsNumber (f.div payout stake)
      → let p = build_statistical_profile frequencies stake payout in
        (nought ≼ p.rtp_ratio) × (p.rtp_ratio ≼ f.decimal 10 0) × (p.volatility ≼ f.decimal 1 0)
  unfolding build_statistical_profile
  build_statistical_profile_bounds frequencies stake payout num =
      let (low, high) = rtp_bounds stake payout num in (low, high, spread_le frequencies)
