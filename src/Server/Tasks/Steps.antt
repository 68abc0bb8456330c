-- ===== src/Server/Tasks/Steps.antt =====
-- How many steps a request to the service (cli/src/server.rs) takes.
use pokemon_rs.Prelude.{
  ℕ, ◌-◌, ◌≤◌, inl, inr, Bool, true, false, Option, none, some, arith, if◌then◌else◌, Option-cases,
  Text, Result, ok, err, nat_eq,
}
use pokemon_rs.Prelude.Map.{get}
use pokemon_rs.StateEngine.{GameState}
use pokemon_rs.StateEngine.Graph.{transition-cases}
use pokemon_rs.Float.{F64}
use pokemon_rs.Json.{Json, Serialize, DateTime}
use pokemon_rs.Api.{Uuid, Session, PlayActionRequest}
use pokemon_rs.Auth.{Role, user, admin, AuthError}
use pokemon_rs.RateLimit.{check}
use pokemon_rs.Persistence.{session_get_by_id, session_create}
use pokemon_rs.Manager
use pokemon_rs.Rl.Store.{ExperienceStore}
use pokemon_rs.AppState.{AppState}
use pokemon_rs.Server.{next_state}
use pokemon_rs.Server.Guards.{key_of}
use pokemon_rs.Server.Race.{
  Stage, called, looked, decided, moved, counted, logged, answered, Call, advance_call,
}
use pokemon_rs.Server.Race.Alone.{
  look_found, look_missing, decide_granted, decide_refused, decide_missing, write_found,
  write_missing,
}
use pokemon_rs.Server.Router.{
  Route, create_session, get_session, play_action, session_events, create_wallet, wallet_operation,
  game_fingerprint, rl_export, get_metrics, Request,
}
use pokemon_rs.Server.Tasks.{
  Progress, arrived, authorised, admitted, limited, created, acting, listing, read_created,
  read_completed, responded, call_of, begin, advance_task, act, after_role, after_token, role_of,
}

-- The steps that are left to an action, and to a request.
abbrev pub stage_left : {F : Type 0} → Stage F → ℕ
stage_left called = 6
stage_left (looked prev) = 5
stage_left (decided prev to) = 4
stage_left (moved prev x) = 3
stage_left (counted prev x) = 2
stage_left _ = 1

abbrev pub steps_left : {F J T : Type 0} → Progress F J T → ℕ
steps_left arrived = 8
steps_left authorised = 7
steps_left admitted = 6
steps_left (acting id req st) = stage_left st
steps_left (read_created n) = 2
steps_left (responded a) = 0
steps_left _ = 1

module _ {F J T S : Type 0} ⦃f : F64 F⦄ ⦃j : Json J⦄ ⦃w : Serialize F J⦄ ⦃d : DateTime T⦄
    ⦃r : ExperienceStore F J T S⦄ (show : Uuid → Text) (q : Request F T) (id : Uuid)
    (req : PlayActionRequest F) where
  look-steps_left : (s : AppState F J T S) → steps_left (act show q id req called s).1 ≤ 5
  look-steps_left s =
      let c : Call F T = call_of q id req called in
      elim (Option-cases (get id s.session_repo)) [
        | inl missing ↦ rw (look_missing c s missing) (omega arith)
        | inr (x, found) ↦ rw (look_found c s x found) (omega arith)
      ]

  decide-steps_left :
      (prev : Session F) (s : AppState F J T S)
      → steps_left (act show q id req (looked prev) s).1 ≤ 4
  decide-steps_left prev s =
      let c : Call F T = call_of q id req (looked prev) in
      elim (Option-cases (get id s.session_repo)) [
        | inl missing ↦ rw (decide_missing c s prev missing) (omega arith)
        | inr (x, found) ↦ elim (transition-cases x.state (next_state req.action.action_type)) [
          | inl granted ↦ rw (decide_granted c s prev x found granted) (omega arith)
          | inr refused ↦ rw (decide_refused c s prev x found refused) (omega arith)
        ]
      ]

  write-steps_left :
      (prev : Session F) (to : GameState) (s : AppState F J T S)
      → steps_left (act show q id req (decided prev to) s).1 ≤ 3
  write-steps_left prev to s =
      let c : Call F T = call_of q id req (decided prev to) in
      elim (Option-cases (get id s.session_repo)) [
        | inl missing ↦ rw (write_missing c s prev to missing) (omega arith)
        | inr (x, found) ↦ rw (write_found c s prev x to found) (omega arith)
      ]

  -- A step of an action brings it nearer to its end.
  act-steps_left :
      (st : Stage F) (s : AppState F J T S)
      → steps_left (act show q id req st s).1 ≤ stage_left st - 1
  unfolding advance_call
  act-steps_left called s = look-steps_left s
  act-steps_left (looked prev) s = decide-steps_left prev s
  act-steps_left (decided prev to) s = write-steps_left prev to s
  act-steps_left (moved prev x) s = omega arith
  act-steps_left (counted prev x) s = omega arith
  act-steps_left (logged prev x) s = omega arith
  act-steps_left (answered a) s = omega arith

module _ (F J T : Type 0) where
  after_token-steps_left :
      (o : Option (Result AuthError Role)) → steps_left {F = F} {J = J} {T = T} (after_token o) ≤ 7
  after_token-steps_left none = omega arith
  after_token-steps_left (some (err e)) = omega arith
  after_token-steps_left (some (ok role)) = omega arith

  after_role-steps_left :
      (n : ℕ) (o : Option (Result AuthError Role))
      → steps_left {F = F} {J = J} {T = T} (after_role n o) ≤ 5
  after_role-steps_left n none = omega arith
  after_role-steps_left n (some (err e)) = omega arith
  after_role-steps_left n (some (ok user)) = omega arith
  after_role-steps_left n (some (ok admin)) = omega arith

  check-steps_left :
      (b : Bool) → steps_left {F = F} {J = J} {T = T} (if b then admitted else limited) ≤ 6
  check-steps_left true = omega arith
  check-steps_left false = omega arith

module _ {F J T S : Type 0} ⦃f : F64 F⦄ ⦃j : Json J⦄ ⦃w : Serialize F J⦄ ⦃d : DateTime T⦄
    ⦃r : ExperienceStore F J T S⦄ (show : Uuid → Text) where
  begin-steps_left :
      (q : Request F T) (route : Route F) (s : AppState F J T S)
      → steps_left (begin show q route s).1 ≤ 5
  unfolding begin Manager.create_session session_create Manager.get_session session_get_by_id
  begin-steps_left q (create_session req) s = omega arith
  begin-steps_left q (play_action id req) s = act-steps_left show q id req called s
  begin-steps_left q (session_events id) s = elim (Option-cases (get id s.session_repo)) [
    | inl missing ↦ rw missing (omega arith)
    | inr (x, found) ↦ rw found (omega arith)
  ]
  begin-steps_left q get_metrics s =
      after_role-steps_left F J T s.metrics.sessions_created (role_of q.auth s)
  begin-steps_left q (get_session id) s = omega arith
  begin-steps_left q (create_wallet req) s = omega arith
  begin-steps_left q (wallet_operation id req) s = omega arith
  begin-steps_left q (game_fingerprint id) s = omega arith
  begin-steps_left q (rl_export query) s = omega arith

  pub advance_task-steps_left :
      (p : Progress F J T) (q : Request F T) (s : AppState F J T S)
      → steps_left (advance_task show p q s).1 ≤ steps_left p - 1
  unfolding advance_task
  advance_task-steps_left arrived q s = after_token-steps_left F J T (role_of q.auth s)
  advance_task-steps_left authorised q s =
      check-steps_left F J T (check (key_of q.auth) q.now s.rate_limiter).1
  advance_task-steps_left admitted q s = begin-steps_left q q.route s
  advance_task-steps_left limited q s = omega arith
  advance_task-steps_left (created resp) q s = omega arith
  advance_task-steps_left (acting id req st) q s = act-steps_left show q id req st s
  advance_task-steps_left (listing id) q s = omega arith
  advance_task-steps_left (read_created n) q s = omega arith
  advance_task-steps_left (read_completed n m) q s = omega arith
  advance_task-steps_left (responded a) q s = omega arith
