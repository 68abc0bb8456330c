-- ===== src/Conformance/Machines.antt =====
-- The tests of controller/src/state_engine/mod.rs, auth.rs, ratelimit.rs and metrics.rs.
use pokemon_rs.Prelude.{
  ◌*◌, ◌≡◌, refl, Bool, true, false, not, ◌&&◌, Option, none, some, [], ◌∷◌, leb, nat_beq, codes,
  ◌==◌, text_eq,
}
use pokemon_rs.Prelude.Map.{get, insert}
use pokemon_rs.StateEngine.{
  idle, initialized, playing, completed, StateError, transition, state_beq,
}
use pokemon_rs.Auth.{
  Role, user, admin, parse_bearer_token, validate_token, role_allowed, starts_with,
}
use pokemon_rs.Auth.Trim.{trim, trim_start, trim_end, is_whitespace}
use pokemon_rs.RateLimit.{nanos_per_sec, check, admit, retry_after_seconds, retry_entry}
use pokemon_rs.RateLimit
use pokemon_rs.Metrics
use pokemon_rs.Metrics.{
  record_session_created, record_session_completed, get_sessions_created, get_sessions_completed,
}
use pokemon_rs.Conformance.{is_err, ok_and, some_and, err_and}

abbrev idle_to_initialized_ok : Bool
idle_to_initialized_ok = ok_and (transition idle initialized) (state_beq initialized)

abbrev is_invalid_transition : StateError → Bool
is_invalid_transition (StateError.invalid_transition _ _) = true
is_invalid_transition StateError.not_found = false

abbrev invalid_transition_returns_state_error : Bool
invalid_transition_returns_state_error =
    err_and (transition completed playing) is_invalid_transition

abbrev same_state_ok : Bool
same_state_ok = ok_and (transition playing playing) (state_beq playing)

abbrev initialized_to_playing_ok : Bool
initialized_to_playing_ok = ok_and (transition initialized playing) (state_beq playing)

state_engine_pass :
    (idle_to_initialized_ok ≡ true)
    × (invalid_transition_returns_state_error ≡ true)
    × (same_state_ok ≡ true)
    × (initialized_to_playing_ok ≡ true)
unfolding transition
state_engine_pass = (refl, refl, refl, refl)

abbrev parse_bearer_extracts_token : Bool
parse_bearer_extracts_token =
    some_and (parse_bearer_token (some (codes "Bearer abc123"))) (λ t. t == codes "abc123")
    && some_and (parse_bearer_token (some (codes "Bearer  x "))) (λ t. t == codes "x")

abbrev is_none : {A : Type 0} → Option A → Bool
is_none none = true
is_none (some _) = false

abbrev parse_bearer_rejects_non_bearer : Bool
parse_bearer_rejects_non_bearer =
    is_none (parse_bearer_token (some (codes "Basic abc")))
    && is_none (parse_bearer_token (some (codes "Bearer ")))
    && is_none (parse_bearer_token none)

abbrev role_beq : Role → Role → Bool
role_beq user user = true
role_beq admin admin = true
role_beq _ _ = false

abbrev validate_token_returns_user_or_admin_in_dev_mode : Bool
validate_token_returns_user_or_admin_in_dev_mode =
    ok_and (validate_token (codes "any") []) (role_beq user)
    && ok_and (validate_token (codes "admin:key") []) (role_beq admin)

abbrev validate_token_rejects_empty_token : Bool
validate_token_rejects_empty_token = is_err (validate_token (codes "") [])

abbrev validate_token_enforces_api_keys_when_set : Bool
validate_token_enforces_api_keys_when_set =
    let keys = codes "validkey" ∷ [] in
    ok_and (validate_token (codes "validkey") keys) (role_beq user)
    && is_err (validate_token (codes "wrongkey") keys)

abbrev validate_token_admin_prefix_in_key_set : Bool
validate_token_admin_prefix_in_key_set =
    let keys = codes "admin:secret" ∷ [] in
    ok_and (validate_token (codes "admin:secret") keys) (role_beq admin)

abbrev role_allowed_user_can_do_user_actions : Bool
role_allowed_user_can_do_user_actions =
    role_allowed user user && not (role_allowed admin user) && role_allowed admin admin

auth_pass :
    (parse_bearer_extracts_token ≡ true)
    × (parse_bearer_rejects_non_bearer ≡ true)
    × (validate_token_returns_user_or_admin_in_dev_mode ≡ true)
    × (validate_token_rejects_empty_token ≡ true)
    × (validate_token_enforces_api_keys_when_set ≡ true)
    × (validate_token_admin_prefix_in_key_set ≡ true)
    × (role_allowed_user_can_do_user_actions ≡ true)
unfolding parse_bearer_token validate_token role_allowed starts_with trim trim_start trim_end
    is_whitespace
auth_pass = (refl, refl, refl, refl, refl, refl, refl)

-- The clock does not move while a test of the limiter runs.
abbrev allows_under_limit : Bool
allows_under_limit =
    let (r1, first) = check (codes "k1") 0 (RateLimit.new 2 (10 * nanos_per_sec)) in
    let (r2, second) = check (codes "k1") 0 r1 in
    let (r3, third) = check (codes "k1") 0 r2 in first && second && not third

abbrev different_keys_independent : Bool
different_keys_independent =
    let (r1, first) = check (codes "a") 0 (RateLimit.new 1 (10 * nanos_per_sec)) in
    let (r2, second) = check (codes "a") 0 r1 in
    let (r3, third) = check (codes "b") 0 r2 in first && not second && third

abbrev retry_after_returns_positive : Bool
retry_after_returns_positive =
    let (r1, _) = check (codes "x") 0 (RateLimit.new 1 (60 * nanos_per_sec)) in
    let (r2, _) = check (codes "x") 0 r1 in leb 1 (retry_after_seconds (codes "x") 0 r2)

ratelimit_pass :
    (allows_under_limit ≡ true)
    × (different_keys_independent ≡ true)
    × (retry_after_returns_positive ≡ true)
unfolding check admit RateLimit.new get insert retry_after_seconds retry_entry
ratelimit_pass = (refl, refl, refl)

abbrev session_metrics_increment : Bool
session_metrics_increment =
    let created = record_session_created (record_session_created Metrics.new) in
    let completed = record_session_completed created in
    nat_beq (get_sessions_created Metrics.new) 0
    && nat_beq (get_sessions_created created) 2
    && nat_beq (get_sessions_completed completed) 1

metrics_pass : session_metrics_increment ≡ true
unfolding Metrics.new record_session_created record_session_completed get_sessions_created
    get_sessions_completed
metrics_pass = refl
