-- ===== src/Conformance/Tools.antt =====
-- The tests of controller/src/simulator_human_proxy/mod.rs that need no values of `sqrt`, `ln` or
-- `cos`, of
-- fingerprinter and api.rs of controller/src, and of cli/src/config.rs. The text of serialised JSON
-- is not modelled, nor is division finer than ten-thousandths.
use pokemon_rs.Prelude.{
  ℕ, ◌≡◌, refl, Bool, true, not, ◌&&◌, none, List, [], ◌∷◌, arith, nat_beq, length, Text, codes,
  ◌==◌, nat_eq, text_eq,
}
use pokemon_rs.Prelude.Map.{HashMap, get, insert}
use pokemon_rs.Prelude.Int.{◌+ℤ◌, ◌*ℤ◌}
use pokemon_rs.Float.{F64}
use pokemon_rs.Float.Fixed.{Fixed, fixed_f64}
use pokemon_rs.Json.Plain.{Plain, object}
use pokemon_rs.Api.{
  wallet_limit_exceeded, not_found, state_error, unauthorized, code_text, from_code,
}
use pokemon_rs.Fingerprinter.{GameFingerprint, fingerprint_get, save}
use pokemon_rs.Fingerprinter.Extraction.{
  rng_signature_digest, fnv1a_64, fnv1a_step, as_bytes, build_statistical_profile, rtp, spread,
}
use pokemon_rs.Simulator.{
  gaussian_sample, conservative, aggressive, mixed_adaptive, next_stake, should_take_break,
}
use pokemon_rs.Config.{Config, to_app_config}
use pokemon_rs.Conformance.{literal, close, some_and}

-- With any functions for `sqrt`, `ln` and `cos`.
abbrev gaussian_sample_non_negative : (Fixed → Fixed) → (Fixed → Fixed) → (Fixed → Fixed) → Bool
gaussian_sample_non_negative sqrt ln cos =
    let f : F64 Fixed = record fixed_f64 { sqrt = sqrt; ln = ln; cos = cos } in
    let v = gaussian_sample ⦃f = f⦄ (literal 100 0) (literal 200 0) (literal 1 4) (literal 5 1) in
    fixed_f64.le (literal 0 0) v

gaussian_sample_pass :
    (sqrt ln cos : Fixed → Fixed) → gaussian_sample_non_negative sqrt ln cos ≡ true
unfolding gaussian_sample
gaussian_sample_pass sqrt ln cos = ground arith

abbrev next_stake_conservative_low : Bool
next_stake_conservative_low = fixed_f64.lt (next_stake conservative 0 (literal 0 0)) (literal 1 0)

abbrev next_stake_aggressive_higher_than_conservative : Bool
next_stake_aggressive_higher_than_conservative =
    let cons = next_stake conservative 5 (literal 5 1) in
    let aggr = next_stake aggressive 5 (literal 5 1) in fixed_f64.lt cons aggr

abbrev next_stake_aggressive_capped_at_100 : Bool
next_stake_aggressive_capped_at_100 =
    fixed_f64.le (next_stake aggressive 1000 (literal 1 0)) (literal 100 0)

abbrev mixed_adaptive_alternates_strategy : Bool
mixed_adaptive_alternates_strategy =
    let s0 = next_stake mixed_adaptive 0 (literal 5 1) in
    let s20 = next_stake mixed_adaptive 20 (literal 5 1) in fixed_f64.lt s0 s20

abbrev should_take_break_only_at_multiples_of_25 : Bool
should_take_break_only_at_multiples_of_25 =
    not (should_take_break 0 (literal 1 2))
    && not (should_take_break 24 (literal 1 2))
    && should_take_break 25 (literal 1 2)
    && not (should_take_break 25 (literal 5 1))

simulator_pass :
    (next_stake_conservative_low ≡ true)
    × (next_stake_aggressive_higher_than_conservative ≡ true)
    × (next_stake_aggressive_capped_at_100 ≡ true)
    × (mixed_adaptive_alternates_strategy ≡ true)
    × (should_take_break_only_at_multiples_of_25 ≡ true)
unfolding next_stake should_take_break ◌+ℤ◌ ◌*ℤ◌
simulator_pass = (refl, refl, refl, refl, refl)

abbrev no_frequencies : HashMap Text Fixed
no_frequencies = []

abbrev statistical_profile_rtp_bounds : Bool
statistical_profile_rtp_bounds =
    let p = build_statistical_profile no_frequencies (literal 100 0) (literal 95 0) in
    fixed_f64.le (literal 0 0) p.rtp_ratio
    && fixed_f64.le p.rtp_ratio (literal 10 0)
    && close p.rtp_ratio (literal 95 2)

abbrev two_spins : List (List Text)
two_spins = (codes "A" ∷ codes "B" ∷ []) ∷ (codes "C" ∷ []) ∷ []

abbrev rng_signature_is_stable_and_deterministic : Bool
rng_signature_is_stable_and_deterministic =
    let d1 = rng_signature_digest two_spins 100 in
    let d2 = rng_signature_digest two_spins 100 in (d1 == d2) && nat_beq (length d1) 16

abbrev rng_signature_differs_for_different_sequences : Bool
rng_signature_differs_for_different_sequences =
    let s1 = (codes "A" ∷ []) ∷ [] in
    let s2 = (codes "B" ∷ []) ∷ [] in not (rng_signature_digest s1 10 == rng_signature_digest s2 10)

extraction_pass :
    (statistical_profile_rtp_bounds ≡ true)
    × (rng_signature_is_stable_and_deterministic ≡ true)
    × (rng_signature_differs_for_different_sequences ≡ true)
unfolding build_statistical_profile rtp spread rng_signature_digest fnv1a_64 fnv1a_step as_bytes
extraction_pass = (refl, refl, refl)

abbrev fp : GameFingerprint Plain
fp = record {
  game_id = 2;
  rng_signature = codes "abc";
  symbol_map = object ((codes "A", codes "0.5") ∷ []);
  statistical_profile = object ((codes "rtp_ratio", codes "0.96") ∷ []);
}

abbrev save_and_get_fingerprint : Bool
save_and_get_fingerprint =
    some_and (fingerprint_get 2 (save fp [])) λ got. got.rng_signature == codes "abc"

abbrev error_response_has_code_and_message : Bool
error_response_has_code_and_message =
    let e = from_code unauthorized (codes "bad token") in
    (e.code == codes "UNAUTHORIZED") && (e.message == codes "bad token")

abbrev error_code_display : Bool
error_code_display =
    (code_text wallet_limit_exceeded == codes "WALLET_LIMIT_EXCEEDED")
    && (code_text not_found == codes "NOT_FOUND")

abbrev from_code_builds_error_response : Bool
from_code_builds_error_response =
    let e = from_code state_error (codes "bad state") in e.code == codes "STATE_ERROR"

-- The address plays no part.
abbrev config_defaults_are_sensible : Bool
config_defaults_are_sensible =
    let cfg : Config Fixed ℕ = record {
      bind = 8080;
      api_keys = none;
      cost_per_spin = literal 1 2;
      human_likeness_weight = literal 3 1;
      rate_limit_rpm = 100;
      database_url = none;
    } in
    let app_cfg = to_app_config cfg in
    close app_cfg.cost_per_spin (literal 1 2)
    && close app_cfg.human_likeness_weight (literal 3 1)
    && nat_beq app_cfg.rate_limit_rpm 100

values_pass :
    (save_and_get_fingerprint ≡ true)
    × (error_response_has_code_and_message ≡ true)
    × (error_code_display ≡ true)
    × (from_code_builds_error_response ≡ true)
    × (config_defaults_are_sensible ≡ true)
unfolding fingerprint_get save get insert from_code code_text to_app_config
values_pass = (refl, refl, refl, refl, refl)
