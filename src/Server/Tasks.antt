-- ===== src/Server/Tasks.antt =====
-- Concurrent requests to the service (cli/src/server.rs). Every lock and every atomic counter is
-- taken for one access at a time, so that other requests may run in between. A request is a thread
-- of atomic steps; that of an action goes on as in Race.
pub mod Wallets
pub mod Unserved
pub mod Atomicity
pub mod Alone
pub mod Sessions
pub mod Steps
pub mod Answers
pub mod Termination
use pokemon_rs.Prelude.{
  ℕ, Option, none, some, List, map, if◌then◌else◌, Text, codes, Result, ok, err,
}
use pokemon_rs.Prelude.Schedule.{interleave, run_alone}
use pokemon_rs.Float.{F64}
use pokemon_rs.Json.{Json, Serialize, DateTime}
use pokemon_rs.Api.{
  Uuid, Session, CreateSessionResponse, PlayActionRequest, from_code, rate_limit, ErrorCode,
}
use pokemon_rs.Auth.{Role, user, admin, AuthError, parse_bearer_token, validate_token}
use pokemon_rs.RateLimit.{check, retry_after_seconds}
use pokemon_rs.Domain.{DomainError, not_found}
use pokemon_rs.Persistence.{session_store}
use pokemon_rs.Manager
use pokemon_rs.Events
use pokemon_rs.Metrics
use pokemon_rs.Rl.Store.{ExperienceStore}
use pokemon_rs.AppState.{AppState}
use pokemon_rs.Server.{unwrap_or, on_sessions, event_record}
use pokemon_rs.Server.Http.{Response, respond, respond_with}
use pokemon_rs.Server.Middleware.{unauthorized_response}
use pokemon_rs.Server.Race.{Stage, called, answered, Call, advance_call}
use pokemon_rs.Server.Router.{
  Route, create_session, get_session, play_action, session_events, create_wallet, wallet_operation,
  game_fingerprint, rl_export, get_metrics, Payload, session_created, action_played, events_found,
  snapshot, Request, dispatch,
}

-- How far a request has come: nothing done; its token accepted; let through or held back by the
-- limiter; a session stored, but not counted; in an action; the session found whose events are
-- asked for; one or two counters read; answered.
pub data Progress (F J T : Type 0) : Type 0 where
  arrived : Progress F J T
  authorised : Progress F J T
  admitted : Progress F J T
  limited : Progress F J T
  created : CreateSessionResponse → Progress F J T
  acting : Uuid → PlayActionRequest F → Stage F → Progress F J T
  listing : Uuid → Progress F J T
  read_created : ℕ → Progress F J T
  read_completed : ℕ → ℕ → Progress F J T
  responded : Option (Response (Payload F J T)) → Progress F J T

pub record Task (F J T : Type 0) : Type 0 where
  pub request : Request F T
  pub progress : Progress F J T

module _ {F J T : Type 0} where
  abbrev pub refuse : Text → Progress F J T
  refuse message = responded (some (unauthorized_response message))

  -- After the layer that checks the token.
  abbrev pub after_token : Option (Result AuthError Role) → Progress F J T
  after_token none = refuse (codes "Missing or invalid Authorization")
  after_token (some (err e)) = refuse (codes "Missing or invalid Authorization")
  after_token (some (ok role)) = authorised

  -- After the check of the metrics handler, with the first counter.
  abbrev pub after_role : ℕ → Option (Result AuthError Role) → Progress F J T
  after_role n none = refuse (codes "Admin token required")
  after_role n (some (err e)) = refuse (codes "Admin token required")
  after_role n (some (ok user)) =
      responded
        (some (respond 403 (err (from_code ErrorCode.unauthorized (codes "Admin role required")))))
  after_role n (some (ok admin)) = read_created n

  abbrev pub after_stage : (Uuid → Text) → Uuid → PlayActionRequest F → Stage F → Progress F J T
  after_stage show id req (answered a) = responded (some (respond_with show 200 action_played a))
  after_stage show id req st = acting id req st

abbrev pub call_of : {F T : Type 0} → Request F T → Uuid → PlayActionRequest F → Stage F → Call F T
call_of q id req st = record { id = id; req = req; draw = q.draw; stage = st }

module _ {F J T S : Type 0} where
  -- The role of the token in the header, if the header has a token.
  unfoldable pub role_of : Option Text → AppState F J T S → Option (Result AuthError Role)
  role_of auth s = elim (parse_bearer_token auth) [
    | none ↦ none
    | some token ↦ some (validate_token token s.api_keys)
  ]

  module _ (show : Uuid → Text) where
    abbrev pub after_create :
        AppState F J T S × Result DomainError CreateSessionResponse
        → AppState F J T S × Progress F J T
    after_create (s, ok resp) = (s, created resp)
    after_create (s, err e) = (s, responded (some (respond_with show 201 session_created (err e))))

    abbrev pub after_lookup :
        Uuid
        → AppState F J T S × Result DomainError (Option (Session F))
        → AppState F J T S × Progress F J T
    after_lookup id (s, ok (some x)) = (s, listing id)
    after_lookup id (s, ok none) =
        (s, responded (some (respond_with show 200 events_found (err (not_found id)))))
    after_lookup id (s, err e) = (s, responded (some (respond_with show 200 events_found (err e))))

module _ {F J T S : Type 0} ⦃f : F64 F⦄ ⦃j : Json J⦄ ⦃w : Serialize F J⦄ ⦃d : DateTime T⦄
    ⦃r : ExperienceStore F J T S⦄ (show : Uuid → Text) where
  abbrev pub act :
      Request F T
      → Uuid
      → PlayActionRequest F
      → Stage F
      → AppState F J T S
      → AppState F J T S × Progress F J T
  act q id req st s =
      let (s', c) = advance_call st (call_of q id req st) s in (s', after_stage show id req c.stage)

  -- The first step of a handler. A handler with one access to a store is a step as a whole.
  unfoldable pub begin :
      Request F T → Route F → AppState F J T S → AppState F J T S × Progress F J T
  begin q (create_session req) s =
      after_create show (on_sessions (Manager.create_session session_store q.fresh req) s)
  begin q (play_action id req) s = act q id req called s
  begin q (session_events id) s =
      after_lookup show id (on_sessions (Manager.get_session session_store id) s)
  begin q get_metrics s = (s, after_role s.metrics.sessions_created (role_of q.auth s))
  begin q (get_session id) s = let (s', a) = dispatch show q (get_session id) s in (s', responded a)
  begin q (create_wallet req) s =
      let (s', a) = dispatch show q (create_wallet req) s in (s', responded a)
  begin q (wallet_operation id req) s =
      let (s', a) = dispatch show q (wallet_operation id req) s in (s', responded a)
  begin q (game_fingerprint id) s =
      let (s', a) = dispatch show q (game_fingerprint id) s in (s', responded a)
  begin q (rl_export query) s =
      let (s', a) = dispatch show q (rl_export query) s in (s', responded a)

  -- One atomic step of a request.
  unfoldable pub advance_task :
      Progress F J T → Request F T → AppState F J T S → AppState F J T S × Progress F J T
  advance_task arrived q s = (s, after_token (role_of q.auth s))
  advance_task authorised q s =
      let (limiter, allowed) = check (unwrap_or (codes "anon") q.auth) q.now s.rate_limiter in
      (record s { rate_limiter = limiter }, if allowed then admitted else limited)
  advance_task admitted q s = begin q q.route s
  advance_task limited q s = (
    s,
    responded (
        some (record {
          status = 429;
          retry_after =
              some (retry_after_seconds (unwrap_or (codes "anon") q.auth) q.ask s.rate_limiter);
          body = err (from_code rate_limit (codes "rate limit exceeded"));
        })),
  )
  advance_task (created resp) q s = (
    record s { metrics = Metrics.record_session_created s.metrics },
    responded (some (respond_with show 201 session_created (ok resp))),
  )
  advance_task (acting id req st) q s = act q id req st s
  advance_task (listing id) q s = (
    s,
    responded (
        some (
          respond_with show 200 events_found
            (ok (record { events = map event_record (Events.list_by_session id s.event_store) })))),
  )
  advance_task (read_created n) q s = (s, read_completed n s.metrics.sessions_completed)
  advance_task (read_completed n m) q s = (
    s,
    responded (
        some (
          respond 200 (
            ok (
              snapshot (record {
                sessions_created = n;
                sessions_completed = m;
                sessions_playing = s.metrics.sessions_playing;
              }))))),
  )
  advance_task (responded a) q s = (s, responded a)

  abbrev pub step_task : Task F J T → AppState F J T S → AppState F J T S × Task F J T
  step_task t s =
      let (s', p) = advance_task t.progress t.request s in (s', record t { progress = p })

  abbrev pub interleave_tasks :
      List ℕ → List (Task F J T) → AppState F J T S → AppState F J T S × List (Task F J T)
  interleave_tasks = interleave step_task

  abbrev pub run_task : ℕ → Task F J T → AppState F J T S → AppState F J T S × Task F J T
  run_task = run_alone step_task

-- A request that has just come in.
abbrev pub incoming : {F J T : Type 0} → Request F T → Task F J T
incoming q = record { request = q; progress = arrived }
