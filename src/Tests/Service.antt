-- ===== src/Tests/Service.antt =====
-- The theorems of the service on the sample state.
use mathlib.Core.List.{Memᴰ}
use pokemon_rs.Prelude.{
  ℕ, ◌≡◌, refl, inr, Option, none, some, List, [], ◌∷◌, arith, Text, codes, nat_eq,
}
use pokemon_rs.Prelude.Map.{get, insert}
use pokemon_rs.StateEngine.{initialized}
use pokemon_rs.Float.Fixed.{Fixed, fixed_f64}
use pokemon_rs.Json.Plain.{Plain, plain_json, plain_serialize, millis}
use pokemon_rs.Api.{Uuid, Session}
use pokemon_rs.Manager
use pokemon_rs.Persistence.{session_create}
use pokemon_rs.RateLimit
use pokemon_rs.Manager.{default_metrics}
use pokemon_rs.Events
use pokemon_rs.Rl.Store.{InMemoryStore, in_memory_store}
use pokemon_rs.Auth.{validate_token, parse_bearer_token, starts_with, Role, admin}
use pokemon_rs.Auth.Trim.{is_whitespace, trim}
use pokemon_rs.RateLimit.{check, admit}
use pokemon_rs.AppState.{parse_api_keys, split_on, with_config}
use pokemon_rs.Server.{create_session_handler}
use pokemon_rs.Server.Middleware.{auth_middleware, rate_limit_middleware, unauthorized_response}
use pokemon_rs.Server.Router.{create_session, Route, get_session, Request, app}
use pokemon_rs.Server.Guards.{Authenticated, app-unauthorized}
use pokemon_rs.Server.Answers.{serves}
use pokemon_rs.Tests.{sample_state, sample_draw, sample_config, session_request}

abbrev pub show : Uuid → Text
show id = codes "u"

abbrev pub request : Option Text → Route Fixed → Request Fixed ℕ
request auth route = record {
  auth = auth;
  route = route;
  now = 5;
  ask = 6;
  fresh = 8;
  draw = sample_draw;
}

abbrev pub admin_header : Text
admin_header = codes "Bearer admin:k"

pub is_admin : Authenticated (some admin_header) sample_state.api_keys admin
unfolding is_whitespace starts_with
is_admin = (
  admin_header,
  codes "admin:k",
  refl,
  ((λ e. cc), (refl, refl)),
  ([], [], [], refl, tt, tt, tt),
  ((λ e. cc), inr (Memᴰ.head refl), ground arith),
)

nobody : (role : Role) → ¬ Authenticated none sample_state.api_keys role
nobody role (h, t, e, token, carries, accepted) = cc

app-unauthorized_example :
    app show (request none (get_session 7)) sample_state
    ≡ (sample_state, some (unauthorized_response (codes "Missing or invalid Authorization")))
app-unauthorized_example = app-unauthorized show (request none (get_session 7)) sample_state nobody

abbrev new_session : Session Fixed
new_session = record { session_id = 8; game_id = 3; state = initialized; metrics = default_metrics }

abbrev empty_replay : InMemoryStore Fixed Plain ℕ
empty_replay = []

abbrev requests : List (Request Fixed ℕ)
requests = request (some (codes "Bearer u")) (create_session session_request) ∷ []

served :
    get 8
      (serves {J = Plain} show requests (with_config empty_replay none sample_config)).session_repo
    ≡ some new_session
unfolding app auth_middleware parse_bearer_token is_whitespace validate_token starts_with
    rate_limit_middleware check admit create_session_handler Manager.create_session session_create
    get insert with_config parse_api_keys split_on RateLimit.new trim
served = refl
