-- ===== src/Conformance/Routes.antt =====
-- The tests of cli/src/server.rs that send several requests.
use pokemon_rs.Prelude.{
  ℕ, ◌≡◌, refl, Bool, true, false, ◌&&◌, Option, none, some, [], ◌∷◌, nat_beq, length, codes, ok,
  err, nat_eq, text_eq,
}
use pokemon_rs.Prelude.Map
use pokemon_rs.Prelude.Sort.{sort_by}
use pokemon_rs.Float.Fixed.{Fixed, fixed_f64}
use pokemon_rs.Json.Plain.{Plain, plain_json, plain_serialize, millis}
use pokemon_rs.StateEngine.{playing, state_beq, transition}
use pokemon_rs.Api.{Uuid, aud, GameplayActionType, PlayActionRequest}
use pokemon_rs.Domain.{default_config}
use pokemon_rs.Persistence.{session_create, session_get_by_id, session_update_state}
use pokemon_rs.Manager
use pokemon_rs.Events
use pokemon_rs.Events.{validate_action_type}
use pokemon_rs.Rl.Store.{insert_experience, is_session_valid, list_by_session, in_memory_store}
use pokemon_rs.Rl.Reward.{compute_reward_safe, sum_reward, compute_reward_components}
use pokemon_rs.Prelude.Int.{◌+ℤ◌, ◌-ℤ◌, ◌*ℤ◌}
use pokemon_rs.Rl.Store
use pokemon_rs.Rl.Export.{export_experiences, of_experience, page, slice}
use pokemon_rs.Auth.{validate_token, parse_bearer_token, starts_with}
use pokemon_rs.Auth.Trim.{is_whitespace, trim}
use pokemon_rs.RateLimit
use pokemon_rs.RateLimit.{check, admit}
use pokemon_rs.Metrics
use pokemon_rs.AppState.{new, parse_api_keys, split_on, with_config}
use pokemon_rs.Server.{
  create_session_handler, play_action_handler, record_play, play_event, play_experience,
  session_events_handler, action_reward, simulate_result, rl_export_handler, export_query,
}
use pokemon_rs.Server.Middleware.{auth_middleware, rate_limit_middleware, metrics_handler}
use pokemon_rs.Server.Router.{
  session_events, rl_export, get_metrics, Payload, session_created, action_played, events_found,
  exported, snapshot, app, play_action,
}
use pokemon_rs.Conformance.{literal, some_and}
use pokemon_rs.Conformance.Service.{
  State, Answer, test_state, oneshot, testkey, session_body, body_and,
}

abbrev created_id : Payload Fixed Plain ℕ → Option Uuid
created_id (session_created resp) = some resp.session_id
created_id _ = none

-- `created["sessionId"]`
abbrev session_id_of : Answer → Option Uuid
session_id_of none = none
session_id_of (some res) = elim res.body [ err _ ↦ none | ok json ↦ created_id json ]

-- The helper `create_session`; `none` is its panic.
abbrev create_session : Uuid → State → State × Option Uuid
create_session fresh s =
    let (s', answer) = oneshot testkey fresh session_body s in (s', session_id_of answer)

abbrev place_bet_body : Option Fixed → PlayActionRequest Fixed
place_bet_body human_likeness = record {
  action = record {
    action_type = GameplayActionType.place_bet;
    amount = some (record { amount = literal 1 0; currency = aud });
  };
  human_likeness = human_likeness;
}

-- The helper `place_bet`, with the identifier that the handler draws.
abbrev place_bet : Uuid → Uuid → State → State × Answer
place_bet fresh session_id =
    oneshot testkey fresh (play_action session_id (place_bet_body (some (literal 8 1))))

abbrev lists_no_events : Payload Fixed Plain ℕ → Bool
lists_no_events (events_found resp) = nat_beq (length resp.events) 0
lists_no_events _ = false

abbrev session_events_returns_empty_for_new_session : Bool
session_events_returns_empty_for_new_session =
    let (s1, created) = create_session 1 test_state in
    some_and created λ session_id.
      body_and 200 (oneshot testkey 2 (session_events session_id) s1).1 lists_no_events

abbrev is_number : Option Fixed → Bool
is_number none = false
is_number (some _) = true

abbrev lists_one_event : Payload Fixed Plain ℕ → Bool
lists_one_event (events_found resp) = elim resp.events [ e ∷ [] ↦ is_number e.reward | _ ↦ false ]
lists_one_event _ = false

abbrev play_action_stores_event_in_event_store : Bool
play_action_stores_event_in_event_store =
    let (s1, created) = create_session 1 test_state in
    some_and created λ session_id.
      let (s2, _) = place_bet 2 session_id s1 in
      body_and 200 (oneshot testkey 3 (session_events session_id) s2).1 lists_one_event

-- In ten-thousandths a number is finite unless it is NaN.
abbrev is_finite : Fixed → Bool
is_finite x = fixed_f64.le x x

abbrev exports_one_finite : Payload Fixed Plain ℕ → Bool
exports_one_finite (exported resp) = elim resp.experiences [
  | e ∷ [] ↦ is_finite e.reward
  | _ ↦ false
]
exports_one_finite _ = false

abbrev play_action_stores_experience_in_rl_store : Bool
play_action_stores_experience_in_rl_store =
    let (s1, created) = create_session 1 test_state in
    some_and created λ session_id.
      let (s2, _) = place_bet 2 session_id s1 in
      let query = rl_export (export_query session_id (some 10) (some 0)) in
      body_and 200 (oneshot testkey 3 query s2).1 exports_one_finite

abbrev counts_two : Payload Fixed Plain ℕ → Bool
counts_two (snapshot counts) = nat_beq counts.sessions_created 2
counts_two _ = false

abbrev metrics_incremented_on_create : Bool
metrics_incremented_on_create =
    let (s1, first) = create_session 1 test_state in
    let (s2, second) = create_session 2 s1 in
    some_and first λ _. some_and second λ _.
      body_and 200 (oneshot (some (codes "Bearer admin:testkey")) 3 get_metrics s2).1 counts_two

abbrev is_playing : Payload Fixed Plain ℕ → Bool
is_playing (action_played resp) = state_beq resp.session.state playing
is_playing _ = false

abbrev play_action_transitions_initialized_to_playing : Bool
play_action_transitions_initialized_to_playing =
    let (s1, answer) = oneshot testkey 1 session_body test_state in
    body_and 201 answer (λ _. true)
    && some_and (session_id_of answer) λ session_id.
      body_and 200 (oneshot testkey 2 (play_action session_id (place_bet_body none)) s1).1
        is_playing

several_pass :
    (session_events_returns_empty_for_new_session ≡ true)
    × (metrics_incremented_on_create ≡ true)
    × (play_action_transitions_initialized_to_playing ≡ true)
unfolding app auth_middleware parse_bearer_token is_whitespace validate_token starts_with
    rate_limit_middleware check admit new with_config parse_api_keys split_on RateLimit.new trim
    default_config create_session_handler Map.get Map.insert Manager.create_session session_create
    Manager.get_session session_get_by_id Manager.transition_session Manager.decide_transition
    transition session_update_state play_action_handler record_play play_event play_experience
    Events.insert validate_action_type insert_experience is_session_valid session_events_handler
    Events.list_by_session sort_by metrics_handler Metrics.new Metrics.record_session_created
    Metrics.record_session_playing
several_pass = (refl, refl, refl)

stored_pass :
    (play_action_stores_event_in_event_store ≡ true)
    × (play_action_stores_experience_in_rl_store ≡ true)
unfolding app auth_middleware parse_bearer_token is_whitespace validate_token starts_with
    rate_limit_middleware check admit new with_config parse_api_keys split_on RateLimit.new trim
    default_config create_session_handler Map.get Map.insert Manager.create_session session_create
    Manager.get_session session_get_by_id Manager.transition_session Manager.decide_transition
    transition session_update_state play_action_handler record_play play_event play_experience
    Events.insert validate_action_type insert_experience is_session_valid session_events_handler
    Events.list_by_session sort_by rl_export_handler export_experiences page slice export_query
    list_by_session Store.new of_experience action_reward compute_reward_safe sum_reward
    compute_reward_components simulate_result ◌+ℤ◌ ◌-ℤ◌ ◌*ℤ◌
stored_pass = (refl, refl)
