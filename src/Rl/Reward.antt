-- ===== src/Rl/Reward.antt =====
-- controller/src/rl_feedback_loop/reward.rs: reward shaping.
pub mod Bounds
use pokemon_rs.Prelude.{Bool, false, not, ◌&&◌, if◌then◌else◌, Result, ok, err}
use pokemon_rs.Float.{F64, nought, fmax, clamp}

pub data RewardError (F : Type 0) : Type 0 where
  negative_cost : F → RewardError F
  invalid_likeness : F → RewardError F

pub record RewardComponents (F : Type 0) : Type 0 where
  pub payout_reward : F
  pub cost_penalty : F
  pub likeness_bonus : F
  pub completion_bonus : F

module _ {F : Type 0} ⦃f : F64 F⦄ where
  abbrev pub likeness_weight : F
  likeness_weight = f.decimal 3 1

  unfoldable pub compute_reward_components : F → F → F → F → Bool → RewardComponents F
  compute_reward_components payout stake cost likeness done = record {
    payout_reward = f.sub payout stake;
    cost_penalty = f.neg (fmax cost nought);
    likeness_bonus = f.mul (clamp likeness nought (f.decimal 1 0)) likeness_weight;
    completion_bonus = if done && f.lt nought payout then f.decimal 1 0 else nought;
  }

  unfoldable pub sum_reward : RewardComponents F → F
  sum_reward c =
      f.add (f.add (f.add c.payout_reward c.cost_penalty) c.likeness_bonus) c.completion_bonus

  unfoldable pub compute_reward : F → F → F → F → Result (RewardError F) F
  compute_reward payout stake operational_cost human_likeness_score =
      if f.lt operational_cost nought
      then err (negative_cost operational_cost)
      else if not (f.le nought human_likeness_score && f.le human_likeness_score (f.decimal 1 0))
      then err (invalid_likeness human_likeness_score)
      else ok (f.add (f.sub (f.sub payout stake) operational_cost) human_likeness_score)

  unfoldable pub compute_reward_safe : F → F → F → F → F
  compute_reward_safe payout stake operational_cost human_likeness_score =
      sum_reward
        (compute_reward_components payout stake operational_cost human_likeness_score false)
