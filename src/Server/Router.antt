-- ===== src/Server/Router.antt =====
-- cli/src/server.rs: `app`, the protected routes behind their layers. axum runs the layer that was
-- added last first: authentication, then the rate limit. Bodies are extracted after the layers.
use pokemon_rs.Prelude.{ℕ, Option, none, some, Text, Result, ok}
use pokemon_rs.Float.{F64}
use pokemon_rs.Json.{Json, Serialize, DateTime}
use pokemon_rs.Api.{
  HealthResponse, healthy, Uuid, Wallet, Session, CreateSessionRequest, CreateSessionResponse,
  PlayActionRequest, PlayActionResponse, WalletOperationRequest, WalletOperationResponse,
  CreateWalletRequest, SessionEventsResponse, GameFingerprintResponse,
}
use pokemon_rs.RateLimit.{Instant}
use pokemon_rs.Domain.{DomainError}
use pokemon_rs.Rl.Store.{ExperienceStore}
use pokemon_rs.Rl.Export.{ExportResponse}
use pokemon_rs.AppState.{AppState}
use pokemon_rs.Server.{
  RlExportQuery, Draw, Handler, create_session_handler, get_session_handler, play_action_handler,
  session_events_handler, create_wallet_handler, wallet_operation_handler, game_fingerprint_handler,
  rl_export_handler,
}
use pokemon_rs.Server.Http.{respond, Response, respond_with, map_response}
use pokemon_rs.Server.Middleware.{
  Service, Snapshot, auth_middleware, rate_limit_middleware, metrics_handler,
}

-- The protected routes, with what axum extracts from the path, the query and the body.
pub data Route (F : Type 0) : Type 0 where
  create_session : CreateSessionRequest F → Route F
  get_session : Uuid → Route F
  play_action : Uuid → PlayActionRequest F → Route F
  session_events : Uuid → Route F
  create_wallet : CreateWalletRequest F → Route F
  wallet_operation : Uuid → WalletOperationRequest F → Route F
  game_fingerprint : Uuid → Route F
  rl_export : RlExportQuery → Route F
  get_metrics : Route F

-- The JSON bodies of the answers.
pub data Payload (F J T : Type 0) : Type 0 where
  session_created : CreateSessionResponse → Payload F J T
  session_found : Session F → Payload F J T
  action_played : PlayActionResponse F → Payload F J T
  events_found : SessionEventsResponse F J T → Payload F J T
  wallet_created : Wallet F → Payload F J T
  wallet_operated : WalletOperationResponse F → Payload F J T
  fingerprint_found : GameFingerprintResponse J → Payload F J T
  exported : ExportResponse F J T → Payload F J T
  snapshot : Snapshot → Payload F J T

-- A request, with the clock's readings and what a handler would draw while it is served.
pub record Request (F T : Type 0) : Type 0 where
  pub auth : Option Text
  pub route : Route F
  pub now : Instant
  pub ask : Instant
  pub fresh : Uuid
  pub draw : Draw T

abbrev pub exported_response :
    {F J T S : Type 0}
    → (Uuid → Text)
    → AppState F J T S × Option (Result DomainError (ExportResponse F J T))
    → AppState F J T S × Option (Response (Payload F J T))
exported_response show (s, none) = (s, none)
exported_response show (s, some out) = (s, some (respond_with show 200 exported out))

module _ {F J T S : Type 0} ⦃f : F64 F⦄ ⦃j : Json J⦄ ⦃w : Serialize F J⦄ ⦃d : DateTime T⦄
    ⦃r : ExperienceStore F J T S⦄ (show : Uuid → Text) where
  -- A handler's result as the answer of the service.
  abbrev pub serve :
      {A : Type 0} → ℕ → (A → Payload F J T) → Handler F J T S A → Service F J T S (Payload F J T)
  serve status wrap m s = let (s', r) = m s in (s', some (respond_with show status wrap r))

  -- The route's handler. An export would only fail by a panic, which has no answer.
  abbrev pub dispatch : Request F T → Route F → Service F J T S (Payload F J T)
  dispatch q (create_session req) = serve 201 session_created (create_session_handler q.fresh req)
  dispatch q (get_session id) = serve 200 session_found (get_session_handler id)
  dispatch q (play_action id req) = serve 200 action_played (play_action_handler q.draw id req)
  dispatch q (session_events id) = serve 200 events_found (session_events_handler id)
  dispatch q (create_wallet req) = serve 201 wallet_created (create_wallet_handler q.fresh req)
  dispatch q (wallet_operation id req) = serve 200 wallet_operated (wallet_operation_handler id req)
  dispatch q (game_fingerprint id) = serve 200 fingerprint_found (game_fingerprint_handler id)
  dispatch q (rl_export query) = λ s. exported_response show (rl_export_handler query s)
  dispatch q get_metrics = λ s. (s, some (map_response snapshot (metrics_handler q.auth s)))

  unfoldable pub app : Request F T → Service F J T S (Payload F J T)
  app q = auth_middleware q.auth (rate_limit_middleware q.auth q.now q.ask (dispatch q q.route))

-- `health_handler`, on the route that stands outside both layers.
unfoldable pub health_handler : {F J T S : Type 0} → Service F J T S HealthResponse
health_handler s = (s, some (respond 200 (ok healthy)))
