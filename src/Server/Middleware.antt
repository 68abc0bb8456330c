-- ===== src/Server/Middleware.antt =====
-- cli/src/server.rs: the two middleware layers and the metrics handler. A request's `auth` is its
-- `Authorization` header, if it has one that is a text.
use pokemon_rs.Prelude.{ℕ, Option, none, some, if◌then◌else◌, Text, codes, Result, ok, err}
use pokemon_rs.Api.{from_code, ErrorCode, rate_limit}
use pokemon_rs.Auth.{Role, user, admin, AuthError, parse_bearer_token, validate_token}
use pokemon_rs.RateLimit.{Instant, check, retry_after_seconds}
use pokemon_rs.AppState.{AppState}
use pokemon_rs.Server.{unwrap_or}
use pokemon_rs.Server.Http.{Response, respond}

-- The rest of the service behind a layer; `none` is a handler that panicked.
abbrev pub Service : Type 0 → Type 0 → Type 0 → Type 0 → Type 0 → Type 0
Service F J T S A = AppState F J T S → AppState F J T S × Option (Response A)

abbrev pub unauthorized_response : {A : Type 0} → Text → Response A
unauthorized_response message = respond 401 (err (from_code ErrorCode.unauthorized message))

module _ {F J T S A : Type 0} where
  unfoldable pub auth_middleware : Option Text → Service F J T S A → Service F J T S A
  auth_middleware auth run s = elim (parse_bearer_token auth) [
    | none ↦ (s, some (unauthorized_response (codes "Missing or invalid Authorization")))
    | some token ↦ elim (validate_token token s.api_keys) [
      | err _ ↦ (s, some (unauthorized_response (codes "Missing or invalid Authorization")))
      | ok _ ↦ run s
    ]
  ]

  -- `now` and `ask` are the two readings of the clock.
  unfoldable pub rate_limit_middleware :
      Option Text → Instant → Instant → Service F J T S A → Service F J T S A
  rate_limit_middleware auth now ask run s =
      let key = unwrap_or (codes "anon") auth in
      let (limiter, allowed) = check key now s.rate_limiter in
      let s' : AppState F J T S = record s { rate_limiter = limiter } in
      if allowed then run s' else (
        s',
        some (record {
          status = 429;
          retry_after = some (retry_after_seconds key ask limiter);
          body = err (from_code rate_limit (codes "rate limit exceeded"));
        }),
      )

-- The body of the metrics answer.
pub record Snapshot : Type 0 where
  pub sessions_created : ℕ
  pub sessions_completed : ℕ
  pub sessions_playing : ℕ

abbrev pub metrics_for :
    {F J T S : Type 0} → AppState F J T S → Result AuthError Role → Response Snapshot
metrics_for s (err _) = unauthorized_response (codes "Admin token required")
metrics_for s (ok user) =
    respond 403 (err (from_code ErrorCode.unauthorized (codes "Admin role required")))
metrics_for s (ok admin) = respond 200 (
    ok (record {
      sessions_created = s.metrics.sessions_created;
      sessions_completed = s.metrics.sessions_completed;
      sessions_playing = s.metrics.sessions_playing;
    }))

unfoldable pub metrics_handler :
    {F J T S : Type 0} → Option Text → AppState F J T S → Response Snapshot
metrics_handler auth s = elim (parse_bearer_token auth) [
  | none ↦ unauthorized_response (codes "Admin token required")
  | some token ↦ metrics_for s (validate_token token s.api_keys)
]
