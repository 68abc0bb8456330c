-- ===== src/Tests/Pure.antt =====
-- The theorems of the reward, the fingerprint, the simulated player and the configuration at
-- concrete inputs.
use pokemon_rs.Prelude.{
  ◌+◌, ◌*◌, ◌≡◌, refl, ◌≢◌, true, none, some, List, [], ◌∷◌, arith, take, length, All, Text, codes,
  text_eq,
}
use pokemon_rs.Prelude.Map.{get}
use pokemon_rs.Prelude.Int.{pos}
use pokemon_rs.Float.{◌≼◌, nought}
use pokemon_rs.Float.Fixed.{Fixed, fixed_f64, Fixed-IsIeee}
use pokemon_rs.Rl.Reward.{likeness_weight, compute_reward_components}
use pokemon_rs.Rl.Reward.Bounds.{compute_reward_components_bounds}
use pokemon_rs.Fingerprinter.Extraction.{
  concat, extract_symbol_frequencies, rng_signature_digest, fnv1a_64, as_bytes, join,
  build_statistical_profile,
}
use pokemon_rs.Fingerprinter.Extraction.Counts.{extract_symbol_frequencies_lem}
use pokemon_rs.Fingerprinter.Extraction.Distinct.{rng_signature_digest_one_character}
use pokemon_rs.Fingerprinter.Extraction.Signature.{IsHexDigit, of_hex, rng_signature_digest_lem}
use pokemon_rs.Fingerprinter.Extraction.Profile.{build_statistical_profile_bounds}
use pokemon_rs.Simulator.{conservative, aggressive, mixed_adaptive, next_stake}
use pokemon_rs.Simulator.Bounds.{next_stake_bounds}
use pokemon_rs.Config.{Env}

abbrev half : Fixed
half = some (pos 5000)

abbrev one : Fixed
one = some (pos 10_000)

compute_reward_components_bounds_example :
    let c = compute_reward_components one half none half true in
    (c.cost_penalty ≼ nought)
    × (nought ≼ c.likeness_bonus)
    × (c.likeness_bonus ≼ likeness_weight)
    × (c.completion_bonus ≡ one)
compute_reward_components_bounds_example =
    compute_reward_components_bounds Fixed-IsIeee one half none half true refl

abbrev spins : List (List Text)
spins = (codes "A" ∷ codes "B" ∷ []) ∷ (codes "A" ∷ []) ∷ []

extract_symbol_frequencies_lem_example :
    get (codes "A") (extract_symbol_frequencies {F = Fixed} spins) ≡ some (some (pos 6666))
extract_symbol_frequencies_lem_example =
    extract_symbol_frequencies_lem spins (codes "A") (omega arith)

rng_signature_digest_lem_example :
    let digest = rng_signature_digest spins 2 in
    (length digest ≡ 16)
    × All IsHexDigit digest
    × (of_hex 0 digest ≡ fnv1a_64 (as_bytes (join (codes ",") (take 2 (concat spins)))))
rng_signature_digest_lem_example = rng_signature_digest_lem spins 2

build_statistical_profile_bounds_example :
    let p = build_statistical_profile ((codes "A", half) ∷ []) one half in
    (nought ≼ p.rtp_ratio) × (p.rtp_ratio ≼ some (pos 100_000)) × (p.volatility ≼ one)
build_statistical_profile_bounds_example =
    build_statistical_profile_bounds Fixed-IsIeee ((codes "A", half) ∷ []) one half refl

next_stake_bounds_example :
    (next_stake mixed_adaptive (40 * 2 + 7) half ≡ next_stake conservative (40 * 2 + 7) half)
    × (next_stake mixed_adaptive (40 * 2 + 20 + 7) half
        ≡ next_stake aggressive (40 * 2 + 20 + 7) half)
    × (fixed_f64.decimal 1 2 ≼ next_stake mixed_adaptive (40 * 2 + 7) half)
    × (next_stake mixed_adaptive (40 * 2 + 20 + 7) half ≼ fixed_f64.decimal 100 0)
next_stake_bounds_example = next_stake_bounds Fixed-IsIeee 2 7 half (omega arith)

abbrev no_variables : Env
no_variables name = none

-- The same spins but for the last symbol, which only the longer limit takes in.
abbrev other_spins : List (List Text)
other_spins = (codes "A" ∷ codes "B" ∷ []) ∷ (codes "C" ∷ []) ∷ []

rng_signature_digest_one_character_example :
    rng_signature_digest spins 3 ≢ rng_signature_digest other_spins 3
rng_signature_digest_one_character_example =
    rng_signature_digest_one_character spins other_spins 3 (codes "A" ∷ codes "B" ∷ []) [] [] []
      b'A' b'C' refl refl (omega arith) (omega arith) (λ e. absurd (omega (arith, e)))
