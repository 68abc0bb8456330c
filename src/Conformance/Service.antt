-- ===== src/Conformance/Service.antt =====
-- The tests of cli/src/server.rs: the shared helpers, and the tests of one request.
use pokemon_rs.Prelude.{
  ℕ, ◌≡◌, refl, Bool, true, false, ◌&&◌, Option, none, some, [], nat_beq, length, Text, codes, ◌==◌,
  nat_eq, text_eq,
}
use pokemon_rs.Prelude.Map
use pokemon_rs.Prelude.Sort.{sort_by}
use pokemon_rs.Float.Fixed.{Fixed, fixed_f64}
use pokemon_rs.Json.Plain.{Plain, plain_json, plain_serialize, millis}
use pokemon_rs.StateEngine.{initialized, state_beq}
use pokemon_rs.Api.{
  Uuid, Money, aud, debit, CreateWalletRequest, WalletOperationRequest, from_code, code_text,
  healthy,
}
use pokemon_rs.Domain.{default_config}
use pokemon_rs.Persistence.{session_create, session_get_by_id, wallet_create, apply_operation}
use pokemon_rs.Fingerprinter.{fingerprint_get}
use pokemon_rs.Manager
use pokemon_rs.Rl.Store.{InMemoryStore, list_by_session, in_memory_store}
use pokemon_rs.Rl.Export.{export_experiences, page, slice}
use pokemon_rs.Auth.{validate_token, parse_bearer_token, starts_with}
use pokemon_rs.Auth.Trim.{is_whitespace, trim}
use pokemon_rs.RateLimit
use pokemon_rs.RateLimit.{check, admit}
use pokemon_rs.AppState.{new, AppState, parse_api_keys, split_on, with_config}
use pokemon_rs.Server.{
  create_session_handler, get_session_handler, create_wallet_handler, wallet_operation_handler,
  game_fingerprint_handler, rl_export_handler, export_query,
}
use pokemon_rs.Server.Http.{Response, into_response}
use pokemon_rs.Server.Middleware.{auth_middleware, rate_limit_middleware, metrics_handler}
use pokemon_rs.Server.Router.{
  Route, create_session, get_session, create_wallet, wallet_operation, game_fingerprint, rl_export,
  get_metrics, Payload, session_created, wallet_created, exported, app, health_handler,
}
use pokemon_rs.Conformance.{literal, close, some_and, ok_and, err_and}

abbrev pub State : Type 0
State = AppState Fixed Plain ℕ (InMemoryStore Fixed Plain ℕ)

abbrev no_experiences : InMemoryStore Fixed Plain ℕ
no_experiences = []

abbrev pub test_state : State
test_state = new no_experiences none

abbrev pub Answer : Type 0
Answer = Option (Response (Payload Fixed Plain ℕ))

abbrev show : Uuid → Text
show id = codes "id"

-- `oneshot`, with the identifier that the handler draws. All requests come at the same time.
abbrev pub oneshot : Option Text → Uuid → Route Fixed → State → State × Answer
oneshot auth fresh route = app show (record {
  auth = auth;
  route = route;
  now = 0;
  ask = 0;
  fresh = fresh;
  draw = record { event_id = fresh; experience_id = fresh; now = 1000 };
})

abbrev pub testkey : Option Text
testkey = some (codes "Bearer testkey")

abbrev pub session_body : Route Fixed
session_body = create_session (record {
  game_id = 2;
  player_profile = record { behavior_type = codes "conservative"; max_bet = none };
})

abbrev has_status : ℕ → Answer → Bool
has_status status answer = some_and answer λ res. nat_beq res.status status

-- The body of an answer with the status.
abbrev pub body_and : ℕ → Answer → (Payload Fixed Plain ℕ → Bool) → Bool
body_and status answer p = some_and answer λ res. nat_beq res.status status && ok_and res.body p

abbrev health_returns_200_without_auth : Bool
health_returns_200_without_auth =
    some_and (health_handler test_state).1
      λ res. nat_beq res.status 200 && ok_and res.body λ json. json.status == codes "healthy"

abbrev protected_endpoint_rejects_no_auth_with_401 : Bool
protected_endpoint_rejects_no_auth_with_401 =
    some_and (oneshot none 1 session_body test_state).1
      λ res. nat_beq res.status 401 && err_and res.body λ error. error.code == codes "UNAUTHORIZED"

abbrev is_initialized : Payload Fixed Plain ℕ → Bool
is_initialized (session_created resp) = state_beq resp.state initialized
is_initialized _ = false

abbrev create_session_returns_201 : Bool
create_session_returns_201 =
    body_and 201 (oneshot testkey 1 session_body test_state).1 is_initialized

abbrev get_session_returns_404_for_unknown_id : Bool
get_session_returns_404_for_unknown_id =
    has_status 404 (oneshot testkey 1 (get_session 7) test_state).1

abbrev aud_of : ℕ → Money Fixed
aud_of dollars = record { amount = literal dollars 0; currency = aud }

abbrev debit_body : WalletOperationRequest Fixed
debit_body = record { operation = debit; amount = aud_of 10 }

abbrev wallet_operation_returns_404_for_unknown_wallet : Bool
wallet_operation_returns_404_for_unknown_wallet =
    has_status 404 (oneshot testkey 1 (wallet_operation 7 debit_body) test_state).1

abbrev wallet_body : CreateWalletRequest Fixed
wallet_body = record { wallet_id = none; balance = aud_of 500; daily_limit = aud_of 100 }

abbrev is_unspent : Payload Fixed Plain ℕ → Bool
is_unspent (wallet_created w) =
    close w.balance.amount (literal 500 0) && close w.daily_spent.amount (literal 0 0)
is_unspent _ = false

abbrev create_wallet_returns_201 : Bool
create_wallet_returns_201 =
    body_and 201 (oneshot testkey 1 (create_wallet wallet_body) test_state).1 is_unspent

abbrev game_fingerprint_returns_404_for_unknown_game : Bool
game_fingerprint_returns_404_for_unknown_game =
    has_status 404 (oneshot testkey 1 (game_fingerprint 7) test_state).1

abbrev exports : ℕ → Payload Fixed Plain ℕ → Bool
exports n (exported resp) = nat_beq (length resp.experiences) n
exports n _ = false

abbrev rl_export_returns_empty_experiences : Bool
rl_export_returns_empty_experiences =
    let q = rl_export (export_query 7 (some 10) (some 0)) in
    body_and 200 (oneshot testkey 1 q test_state).1 (exports 0)

abbrev metrics_requires_admin_token : Bool
metrics_requires_admin_token =
    has_status 403 (oneshot (some (codes "Bearer regularuser")) 1 get_metrics test_state).1

guards_pass :
    (health_returns_200_without_auth ≡ true)
    × (protected_endpoint_rejects_no_auth_with_401 ≡ true)
    × (get_session_returns_404_for_unknown_id ≡ true)
    × (wallet_operation_returns_404_for_unknown_wallet ≡ true)
    × (game_fingerprint_returns_404_for_unknown_game ≡ true)
    × (metrics_requires_admin_token ≡ true)
unfolding app auth_middleware parse_bearer_token is_whitespace validate_token starts_with
    rate_limit_middleware check admit new with_config parse_api_keys split_on RateLimit.new trim
    default_config health_handler healthy from_code code_text get_session_handler into_response
    wallet_operation_handler game_fingerprint_handler metrics_handler Map.get Map.insert
    Manager.get_session session_get_by_id apply_operation fingerprint_get
guards_pass = (refl, refl, refl, refl, refl, refl)

answers_pass :
    (create_session_returns_201 ≡ true)
    × (create_wallet_returns_201 ≡ true)
    × (rl_export_returns_empty_experiences ≡ true)
unfolding app auth_middleware parse_bearer_token is_whitespace validate_token starts_with
    rate_limit_middleware check admit new with_config parse_api_keys split_on RateLimit.new trim
    default_config create_session_handler create_wallet_handler rl_export_handler Map.get Map.insert
    Manager.create_session session_create wallet_create export_experiences page slice export_query
    list_by_session sort_by
answers_pass = (refl, refl, refl)
