-- ===== src/Simulator.antt =====
-- controller/src/simulator_human_proxy/mod.rs: delays, stakes and breaks of a simulated player. A
-- `Duration` is a number of milliseconds.
pub mod Bounds
use pokemon_rs.Prelude.{ℕ, ◌/◌, ◌%◌, Bool, ◌&&◌, ltb, nat_beq, if◌then◌else◌}
use pokemon_rs.Float.{F64, nought, fmax, fmin}

pub data BehaviourProfile : Type 0 where
  conservative aggressive mixed_adaptive : BehaviourProfile

module _ {F : Type 0} ⦃f : F64 F⦄ where
  unfoldable pub gaussian_sample : F → F → F → F → F
  gaussian_sample mean std_dev seed1 seed2 =
      let two = f.decimal 2 0 in
      let z =
        f.mul (f.sqrt (f.mul (f.neg two) (f.ln seed1))) (f.cos (f.mul (f.mul two f.pi) seed2)) in
      fmax (f.add mean (f.mul z std_dev)) nought

  -- The mean and the deviation, in milliseconds.
  abbrev pub pacing : BehaviourProfile → F × F
  pacing conservative = (f.decimal 4000 0, f.decimal 800 0)
  pacing aggressive = (f.decimal 800 0, f.decimal 200 0)
  pacing mixed_adaptive = (f.decimal 2200 0, f.decimal 600 0)

  unfoldable pub next_delay : BehaviourProfile → F → F → ℕ
  next_delay profile r1 r2 =
      let (mean_ms, std_ms) = pacing profile in
      f.round_u64 (gaussian_sample mean_ms std_ms (fmax r1 f.epsilon) (fmax r2 f.epsilon))

  abbrev pub conservative_stake : F → F
  conservative_stake r = fmax (f.add (f.decimal 50 2) (f.mul r (f.decimal 20 2))) (f.decimal 1 2)

  abbrev pub aggressive_stake : ℕ → F → F
  aggressive_stake spin_count r =
      let tier = f.of_u64 (spin_count / 10) in
      fmin (f.add (f.add (f.decimal 5 0) (f.mul tier (f.decimal 25 1))) (f.mul r (f.decimal 5 0)))
        (f.decimal 100 0)

  unfoldable pub next_stake : BehaviourProfile → ℕ → F → F
  next_stake conservative spin_count r = conservative_stake r
  next_stake aggressive spin_count r = aggressive_stake spin_count r
  next_stake mixed_adaptive spin_count r =
      if nat_beq (spin_count / 20 % 2) 0
      then conservative_stake r
      else aggressive_stake spin_count r

  unfoldable pub should_take_break : ℕ → F → Bool
  should_take_break spin_count r =
      ltb 0 spin_count && nat_beq (spin_count % 25) 0 && f.lt r (f.decimal 5 2)
