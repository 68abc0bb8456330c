-- ===== src/Rl/Reward/Bounds.antt =====
-- Bounds on the reward's components, and the inputs that `compute_reward` accepts
-- (controller/src/rl_feedback_loop/reward.rs).
use pokemon_rs.Prelude.{◌≡◌, refl, ◌↔◌, Bool, true, false, ◌&&◌, arith, if◌then◌else◌, ok, err}
use pokemon_rs.Float.{F64, IsIeee, ◌≼◌, nought, fmax, clamp, IsNumber}
use pokemon_rs.Rl.Reward.{negative_cost, likeness_weight, compute_reward_components, compute_reward}

module _ {F : Type 0} ⦃f : F64 F⦄ (laws : IsIeee F) where
  nought-le-fmax : (x : F) → nought ≼ fmax x nought
  nought-le-fmax x = ground (arith, laws.decimal_nonneg 0 0, laws.le_of_not_lt x nought)

  -- `clamp` into an interval brings every number into it.
  pub clamp_bounds :
      (x lo hi : F) → IsNumber x → lo ≼ hi → (lo ≼ clamp x lo hi) × (clamp x lo hi ≼ hi)
  clamp_bounds x lo hi num le = ground (
    arith,
    laws.le_number lo hi le,
    laws.le_of_not_lt x lo num,
    laws.le_of_not_lt hi x,
    laws.le_of_not_lt hi lo,
    laws.not_lt_of_le lo hi le,
  )

  -- Under the laws of IEEE 754: whatever the cost is, NaN included, its penalty is at most 0;
  -- whatever number the likeness is, its bonus lies between 0 and the weight 0.3; the completion
  -- bonus is 1 for a finished episode with a positive payout, and 0 else.
  pub compute_reward_components_bounds :
      (payout stake cost likeness : F) (done : Bool)
      → IsNumber likeness
      → let c = compute_reward_components payout stake cost likeness done in
        (c.cost_penalty ≼ nought)
        × (nought ≼ c.likeness_bonus)
        × (c.likeness_bonus ≼ likeness_weight)
        × (c.completion_bonus ≡ (if done && f.lt nought payout then f.decimal 1 0 else nought))
  unfolding compute_reward_components
  compute_reward_components_bounds payout stake cost likeness done num =
      let (low, high) =
        clamp_bounds likeness nought (f.decimal 1 0) num (laws.decimal_nonneg 1 0) in
      let (pos_, capped) =
        laws.mul_unit (clamp likeness nought (f.decimal 1 0)) 3 1 (omega arith) low high in
      (laws.neg_nonpos (fmax cost nought) (nought-le-fmax cost), pos_, capped, refl)

-- `compute_reward` succeeds exactly when the cost is not negative and the likeness lies between 0
-- and 1; a negative cost is reported first, whatever the likeness is.
pub compute_reward-ok_iff :
    {F : Type 0} ⦃f : F64 F⦄ (payout stake cost likeness : F)
    → (((r : F) × (compute_reward payout stake cost likeness ≡ ok r))
        ↔ ((f.lt cost nought ≡ false) × (nought ≼ likeness) × (likeness ≼ f.decimal 1 0)))
      × ((compute_reward payout stake cost likeness ≡ err (negative_cost cost))
          ↔ (f.lt cost nought ≡ true))
unfolding compute_reward
compute_reward-ok_iff ⦃f⦄ payout stake cost likeness = (
  (λ (r, e). ground arith, λ h. (f.add (f.sub (f.sub payout stake) cost) likeness, ground arith)),
  ground arith,
)
