-- ===== src/Conformance/Rewards.antt =====
-- The tests of controller/src/rl_feedback_loop/reward.rs.
use pokemon_rs.Prelude.{◌≡◌, refl, Bool, true, false, ◌&&◌}
use pokemon_rs.Prelude.Int.{◌+ℤ◌, ◌-ℤ◌, ◌*ℤ◌}
use pokemon_rs.Float.Fixed.{Fixed, fixed_f64}
use pokemon_rs.Rl.Reward.{
  RewardError, negative_cost, invalid_likeness, likeness_weight, compute_reward,
  compute_reward_safe, compute_reward_components, sum_reward,
}
use pokemon_rs.Conformance.{literal, close, ok_and, err_and}

abbrev is_negative_cost : RewardError Fixed → Bool
is_negative_cost (negative_cost _) = true
is_negative_cost (invalid_likeness _) = false

abbrev is_invalid_likeness : RewardError Fixed → Bool
is_invalid_likeness (negative_cost _) = false
is_invalid_likeness (invalid_likeness _) = true

abbrev compute_reward_basic : Bool
compute_reward_basic =
    ok_and (compute_reward (literal 10 0) (literal 5 0) (literal 1 1) (literal 5 1))
      (λ r. close r (literal 54 1))

abbrev compute_reward_zero_payout : Bool
compute_reward_zero_payout =
    ok_and (compute_reward (literal 0 0) (literal 5 0) (literal 1 1) (literal 5 1))
      (λ r. close r (fixed_f64.neg (literal 46 1)))

abbrev compute_reward_negative_cost_returns_err : Bool
compute_reward_negative_cost_returns_err =
    err_and (compute_reward (literal 5 0) (literal 5 0) (fixed_f64.neg (literal 1 0)) (literal 5 1))
      is_negative_cost

abbrev compute_reward_invalid_likeness_returns_err : Bool
compute_reward_invalid_likeness_returns_err =
    err_and (compute_reward (literal 5 0) (literal 5 0) (literal 1 1) (literal 15 1))
      is_invalid_likeness

abbrev compute_reward_safe_clamps_likeness : Bool
compute_reward_safe_clamps_likeness =
    close (compute_reward_safe (literal 5 0) (literal 5 0) (literal 0 0) (literal 15 1))
      likeness_weight

abbrev compute_reward_safe_clamps_cost : Bool
compute_reward_safe_clamps_cost =
    close
      (compute_reward_safe (literal 5 0) (literal 5 0) (fixed_f64.neg (literal 1 0)) (literal 5 1))
      (fixed_f64.mul (literal 5 1) likeness_weight)

abbrev human_likeness_dominates_when_payout_neutral : Bool
human_likeness_dominates_when_payout_neutral =
    ok_and (compute_reward (literal 5 0) (literal 5 0) (literal 1 1) (literal 0 0)) λ r_low.
      ok_and (compute_reward (literal 5 0) (literal 5 0) (literal 1 1) (literal 1 0))
        λ r_high. fixed_f64.lt r_low r_high && close (fixed_f64.sub r_high r_low) (literal 1 0)

compute_reward_pass :
    (compute_reward_basic ≡ true)
    × (compute_reward_zero_payout ≡ true)
    × (compute_reward_negative_cost_returns_err ≡ true)
    × (compute_reward_invalid_likeness_returns_err ≡ true)
    × (compute_reward_safe_clamps_likeness ≡ true)
    × (compute_reward_safe_clamps_cost ≡ true)
    × (human_likeness_dominates_when_payout_neutral ≡ true)
unfolding compute_reward compute_reward_safe compute_reward_components sum_reward ◌+ℤ◌ ◌-ℤ◌ ◌*ℤ◌
compute_reward_pass = (refl, refl, refl, refl, refl, refl, refl)

abbrev completion_bonus_on_done_positive_payout : Bool
completion_bonus_on_done_positive_payout =
    let c =
      compute_reward_components (literal 10 0) (literal 5 0) (literal 1 1) (literal 5 1) true in
    close c.completion_bonus (literal 1 0)

abbrev completion_bonus_absent_when_done_zero_payout : Bool
completion_bonus_absent_when_done_zero_payout =
    let c =
      compute_reward_components (literal 0 0) (literal 5 0) (literal 1 1) (literal 5 1) true in
    close c.completion_bonus (literal 0 0)

abbrev completion_bonus_absent_when_not_done : Bool
completion_bonus_absent_when_not_done =
    let c =
      compute_reward_components (literal 10 0) (literal 5 0) (literal 1 1) (literal 5 1) false in
    close c.completion_bonus (literal 0 0)

abbrev cost_penalty_non_positive : Bool
cost_penalty_non_positive =
    let c =
      compute_reward_components (literal 5 0) (literal 5 0) (literal 2 0) (literal 5 1) false in
    fixed_f64.le c.cost_penalty (literal 0 0) && close c.cost_penalty (fixed_f64.neg (literal 2 0))

abbrev cost_penalty_zero_for_negative_cost_input : Bool
cost_penalty_zero_for_negative_cost_input =
    let c =
      compute_reward_components (literal 5 0) (literal 5 0) (fixed_f64.neg (literal 1 0))
        (literal 5 1) false in
    close c.cost_penalty (literal 0 0)

abbrev sum_matches_components : Bool
sum_matches_components =
    let c =
      compute_reward_components (literal 10 0) (literal 5 0) (literal 1 1) (literal 5 1) true in
    let expected =
      fixed_f64.add (fixed_f64.add (fixed_f64.add c.payout_reward c.cost_penalty) c.likeness_bonus)
        c.completion_bonus in
    close (sum_reward c) expected

abbrev likeness_bonus_scaled_by_weight : Bool
likeness_bonus_scaled_by_weight =
    let c =
      compute_reward_components (literal 0 0) (literal 0 0) (literal 0 0) (literal 1 0) false in
    close c.likeness_bonus likeness_weight

components_pass :
    (completion_bonus_on_done_positive_payout ≡ true)
    × (completion_bonus_absent_when_done_zero_payout ≡ true)
    × (completion_bonus_absent_when_not_done ≡ true)
    × (cost_penalty_non_positive ≡ true)
    × (cost_penalty_zero_for_negative_cost_input ≡ true)
    × (sum_matches_components ≡ true)
    × (likeness_bonus_scaled_by_weight ≡ true)
unfolding compute_reward_components sum_reward ◌+ℤ◌ ◌-ℤ◌ ◌*ℤ◌
components_pass = (refl, refl, refl, refl, refl, refl, refl)
