-- ===== src/Tests/Concurrency.antt =====
-- The theorems of concurrent action requests on the sample state.
use mathlib.Core.List.{Perm}
use pokemon_rs.Prelude.{ℕ, ◌≡◌, refl, none, [], ◌∷◌, ◌++◌, arith, err, nat_eq}
use pokemon_rs.Prelude.Map.{get}
use pokemon_rs.StateEngine.{StateError, playing, evaluating, completed, transition}
use pokemon_rs.Float.Fixed.{Fixed, fixed_f64}
use pokemon_rs.Json.Plain.{Plain, Plain-IsSerde, plain_json, plain_serialize, millis}
use pokemon_rs.Api.{GameplayActionType}
use pokemon_rs.Events
use pokemon_rs.Rl.Store
use pokemon_rs.Rl.Store.{InMemoryStore, in_memory_store}
use pokemon_rs.AppState.{AppState}
use pokemon_rs.Server.{play_experience, action_reward}
use pokemon_rs.Server.Race.{called, Call, interleave_calls}
use pokemon_rs.Server.Race.Steps.{logged_events}
use pokemon_rs.Server.Race.Logged.{interleave_calls-logged_events}
use pokemon_rs.Server.Race.Stale.{request_of, in_state, answer_with, stale_experience}
use pokemon_rs.Tests.{sample_state, sample_draw, sample_config, evaluated_session}

abbrev own_call : Call Fixed ℕ
own_call = record {
  id = 7;
  req = request_of GameplayActionType.cash_out none none;
  draw = sample_draw;
  stage = called;
}

abbrev rival_call : Call Fixed ℕ
rival_call = record {
  id = 7;
  req = request_of GameplayActionType.spin none none;
  draw = record { event_id = 21; experience_id = 22; now = 9500 };
  stage = called;
}

abbrev playing_state : AppState Fixed Plain ℕ (InMemoryStore Fixed Plain ℕ)
playing_state = record sample_state { session_repo = (7, in_state playing evaluated_session) ∷ [] }

interleave_calls-logged_events_example :
    let (s', cs') =
      interleave_calls
        (0 ∷ 1 ∷ 0 ∷ 1 ∷ 1 ∷ 0 ∷ 1 ∷ 0 ∷ 1 ∷ 0 ∷ [])
        (own_call ∷ rival_call ∷ [])
        sample_state in
    Perm
      (Events.list_by_session 7 s'.event_store)
      (logged_events sample_config 7 cs' ++ Events.list_by_session 7 sample_state.event_store)
interleave_calls-logged_events_example =
    interleave_calls-logged_events Plain-IsSerde 7 (0 ∷ 1 ∷ 0 ∷ 1 ∷ 1 ∷ 0 ∷ 1 ∷ 0 ∷ 1 ∷ 0 ∷ [])
      (own_call ∷ rival_call ∷ []) sample_state

stale_experience_example :
    let (s', cs) =
      interleave_calls
        (0 ∷ 1 ∷ 1 ∷ 1 ∷ 1 ∷ 1 ∷ 1 ∷ 0 ∷ 0 ∷ 0 ∷ 0 ∷ 0 ∷ [])
        (own_call ∷ rival_call ∷ [])
        playing_state in
    (cs
      ≡ record own_call { stage = answer_with (in_state completed evaluated_session) own_call.req }
        ∷ record rival_call {
          stage = answer_with (in_state evaluating evaluated_session) rival_call.req;
        }
        ∷ [])
    × Perm (Store.list_by_session 7 s'.rl_store) (
        play_experience sample_draw 7 own_call.req
          (action_reward sample_config own_call.req)
          playing
          completed
        ∷ play_experience rival_call.draw 7 rival_call.req
            (action_reward sample_config rival_call.req)
            playing
            evaluating
        ∷ Store.list_by_session 7 sample_state.rl_store)
    × (transition playing completed ≡ err (StateError.invalid_transition playing completed))
unfolding get
stale_experience_example =
    stale_experience playing_state 7 evaluated_session none none none none sample_draw
      rival_call.draw refl (omega arith)
