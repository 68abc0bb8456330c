-- ===== src/Tests/Tasks.antt =====
-- The theorems of concurrent requests to a newly started service.
use mathlib.Core.List.{Perm}
use pokemon_rs.Prelude.{
  ℕ, zero, suc, ◌≤◌, ◌<◌, ◌≡◌, refl, ◌⊎◌, none, some, List, [], ◌∷◌, ◌++◌, map, arith, length, All,
  codes, nat_eq, text_eq,
}
use pokemon_rs.Prelude.Map.{get, insert}
use pokemon_rs.Prelude.Int.{◌+ℤ◌, ◌-ℤ◌}
use pokemon_rs.Prelude.Schedule.{turns_of}
use pokemon_rs.StateEngine.{playing, initialized, transition}
use pokemon_rs.StateEngine.Graph.{◌⟶◌}
use pokemon_rs.Float.Fixed.{Fixed, Fixed-IsIeee, fixed_f64}
use pokemon_rs.Json.Plain.{Plain, plain_json, plain_serialize, millis}
use pokemon_rs.Api.{Session, Wallet, WalletOperationRequest, debit, GameplayActionType}
use pokemon_rs.Persistence.{
  operate, apply_operation, wallet_create, session_create, session_get_by_id, session_update_state,
}
use pokemon_rs.Persistence.Wallets.{WithinLimit, NotOverdrawn}
use pokemon_rs.Manager
use pokemon_rs.Manager.{default_metrics}
use pokemon_rs.Rl.Store.{InMemoryStore, in_memory_store}
use pokemon_rs.Auth.{validate_token, parse_bearer_token, starts_with}
use pokemon_rs.Auth.Trim.{is_whitespace, trim}
use pokemon_rs.RateLimit
use pokemon_rs.RateLimit.{check, admit}
use pokemon_rs.AppState.{AppState, parse_api_keys, split_on, with_config}
use pokemon_rs.Server.{create_wallet_handler, wallet_operation_handler}
use pokemon_rs.Server.Router.{create_session, play_action, create_wallet, wallet_operation, Request}
use pokemon_rs.Server.Race.{advance_call}
use pokemon_rs.Server.Race.Stale.{request_of}
use pokemon_rs.Server.Tasks.{Task, begin, advance_task, role_of, interleave_tasks, incoming}
use pokemon_rs.Server.Tasks.Unserved.{in_turn, all_unserved}
use pokemon_rs.Server.Tasks.Atomicity.{interleave_tasks-in_turn}
use pokemon_rs.Server.Tasks.Wallets.{interleave_tasks-WithinLimit, interleave_tasks-NotOverdrawn}
use pokemon_rs.Server.Tasks.Sessions.{interleave_tasks-Follows}
use pokemon_rs.Server.Tasks.Termination.{IsResponded, interleave_tasks-IsResponded}
use pokemon_rs.Tests.{sample_config, sample_state, wallet_request, session_request, dollars}
use pokemon_rs.Tests.Service.{show, request}

abbrev five : WalletOperationRequest Fixed
five = record { operation = debit; amount = dollars 5 }

abbrev purchases : List (Request Fixed ℕ)
purchases =
    request (some (codes "Bearer u")) (create_wallet wallet_request)
    ∷ request (some (codes "Bearer u")) (wallet_operation 9 five)
    ∷ []

abbrev plays : List (Request Fixed ℕ)
plays =
    request (some (codes "Bearer u")) (create_session session_request)
    ∷ request (some (codes "Bearer u"))
        (play_action 8 (request_of GameplayActionType.place_bet none none))
    ∷ []

-- Eight turns each, by turns.
abbrev turns : List ℕ
turns = 0 ∷ 1 ∷ 0 ∷ 1 ∷ 0 ∷ 1 ∷ 0 ∷ 1 ∷ 0 ∷ 1 ∷ 0 ∷ 1 ∷ 0 ∷ 1 ∷ 0 ∷ 1 ∷ []

abbrev started : AppState Fixed Plain ℕ (InMemoryStore Fixed Plain ℕ)
started = with_config [] none sample_config

abbrev debited : Wallet Fixed
debited = record {
  wallet_id = 9;
  balance = dollars 15;
  daily_limit = dollars 5;
  daily_spent = dollars 5;
}

abbrev played : Session Fixed
played = record { session_id = 8; game_id = 3; state = playing; metrics = default_metrics }

bought :
    get 9 (interleave_tasks show turns (map incoming purchases) started).0.wallet_repo
    ≡ some debited
unfolding advance_task begin role_of parse_bearer_token is_whitespace validate_token starts_with
    check admit create_wallet_handler wallet_create wallet_operation_handler apply_operation operate
    get insert with_config parse_api_keys split_on RateLimit.new trim ◌+ℤ◌ ◌-ℤ◌
bought = refl

moved_on :
    get 8 (interleave_tasks show turns (map incoming plays) started).0.session_repo ≡ some played
unfolding advance_task begin role_of parse_bearer_token is_whitespace validate_token starts_with
    check admit advance_call Manager.create_session session_create Manager.get_session
    session_get_by_id Manager.decide_transition session_update_state transition get insert
    with_config parse_api_keys split_on RateLimit.new trim
moved_on = refl

interleave_tasks-WithinLimit_example : WithinLimit debited
interleave_tasks-WithinLimit_example =
    interleave_tasks-WithinLimit Plain show [] none sample_config turns purchases 9 debited
      (refl, (tt, tt)) bought

interleave_tasks-NotOverdrawn_example : NotOverdrawn debited
interleave_tasks-NotOverdrawn_example =
    interleave_tasks-NotOverdrawn Fixed-IsIeee Plain show [] none sample_config turns purchases 9
      debited (refl, ((λ h. refl), tt)) bought

interleave_tasks-Follows_example :
    let after =
      λ (us : List ℕ). (interleave_tasks show us (map incoming plays) started).0.session_repo in
    (playing ≡ initialized)
    ⊎ ((earlier later : List ℕ) × (y : Session Fixed) × (turns ≡ earlier ++ later)
        × (get 8 (after earlier) ≡ some y)
        × (y.state ⟶ playing))
interleave_tasks-Follows_example =
    interleave_tasks-Follows Plain show [] none sample_config turns plays 8 played moved_on

eight_turns : (n : ℕ) → n < length plays → 8 ≤ turns_of n turns
eight_turns zero h = omega arith
eight_turns (suc zero) h = omega arith
eight_turns (suc (suc n)) h = absurd (omega arith)

interleave_tasks-IsResponded_example :
    let ts = (interleave_tasks show turns (map incoming plays) started).1 in
    All IsResponded ts × (map (λ (t : Task Fixed Plain ℕ). t.request) ts ≡ plays)
interleave_tasks-IsResponded_example =
    interleave_tasks-IsResponded show turns plays started eight_turns

interleave_tasks-in_turn_example :
    let (s', ts') = interleave_tasks show turns (map incoming purchases) sample_state in
    (served : List (Request Fixed ℕ)) × Perm purchases (served ++ all_unserved ts')
    × (s'.wallet_repo ≡ in_turn served sample_state.wallet_repo)
interleave_tasks-in_turn_example = interleave_tasks-in_turn show turns purchases sample_state
