-- ===== src/Server/Tasks/Alone.antt =====
-- A request that runs its steps with no other in between is served as by `app` (cli/src/server.rs).
use pokemon_rs.Prelude.{
  ℕ, zero, suc, ◌≡◌, refl, sym, ap, ◌∙◌, inl, inr, Option, none, some, arith, Bool-cases,
  Option-cases, Text, Result-cases, nat_eq,
}
use pokemon_rs.Prelude.Map.{get}
use pokemon_rs.Float.{F64}
use pokemon_rs.Json.{Json, Serialize, DateTime}
use pokemon_rs.Api.{Uuid, PlayActionRequest, from_code}
use pokemon_rs.Auth.{user, admin, parse_bearer_token, validate_token}
use pokemon_rs.RateLimit.{check}
use pokemon_rs.Persistence.{session_store, session_get_by_id, session_create, session_update_state}
use pokemon_rs.Manager
use pokemon_rs.Rl.Store.{ExperienceStore}
use pokemon_rs.AppState.{AppState}
use pokemon_rs.Server.{on_sessions, create_session_handler, session_events_handler}
use pokemon_rs.Server.Guards.{key_of}
use pokemon_rs.Server.Http.{Response}
use pokemon_rs.Server.Middleware.{auth_middleware, rate_limit_middleware, metrics_handler}
use pokemon_rs.Server.Race.{
  Stage, called, looked, decided, moved, counted, logged, answered, Call, advance_call, run_call,
}
use pokemon_rs.Server.Race.Alone.{run_call-play_action_handler}
use pokemon_rs.Server.Router.{
  Route, create_session, get_session, play_action, session_events, create_wallet, wallet_operation,
  game_fingerprint, rl_export, get_metrics, Request, Payload, dispatch, app,
}
use pokemon_rs.Server.Tasks.{
  Progress, responded, Task, call_of, begin, advance_task, run_task, incoming, after_stage,
  after_role, after_lookup, role_of,
}

abbrev task_at : {F J T : Type 0} → Request F T → Progress F J T → Task F J T
task_at q p = record { request = q; progress = p }

abbrev answered_by :
    {F J T A : Type 0} → Request F T → A × Option (Response (Payload F J T)) → A × Task F J T
answered_by q (s, a) = (s, task_at q (responded a))

module _ {F J T S : Type 0} where
  role_missing :
      (auth : Option Text) (s : AppState F J T S)
      → parse_bearer_token auth ≡ none
      → role_of auth s ≡ none
  unfolding role_of
  role_missing auth s missing = rw (missing, role_of) refl

  role_parsed :
      (auth : Option Text) (token : Text) (s : AppState F J T S)
      → parse_bearer_token auth ≡ some token
      → role_of auth s ≡ some (validate_token token s.api_keys)
  unfolding role_of
  role_parsed auth token s parsed = rw (parsed, role_of) refl

module _ {F J T S : Type 0} ⦃f : F64 F⦄ ⦃j : Json J⦄ ⦃w : Serialize F J⦄
    ⦃r : ExperienceStore F J T S⦄ where
  -- A step changes nothing of a call but its stage.
  same_call :
      (st : Stage F) (c : Call F T) (s : AppState F J T S)
      → let c' = (advance_call st c s).1 in c' ≡ record c { stage = c'.stage }
  unfolding advance_call Manager.get_session Manager.decide_transition session_get_by_id
      session_update_state
  same_call called c s = ground arith
  same_call (looked prev) c s = ground arith
  same_call (decided prev to) c s = ground arith
  same_call (moved prev x) c s = refl
  same_call (counted prev x) c s = refl
  same_call (logged prev x) c s = refl
  same_call (answered a) c s = refl

module _ {F J T S : Type 0} ⦃f : F64 F⦄ ⦃j : Json J⦄ ⦃w : Serialize F J⦄ ⦃d : DateTime T⦄
    ⦃r : ExperienceStore F J T S⦄ (show : Uuid → Text) where
  -- The task of an action goes as its call does.
  abbrev as_task : Request F T → AppState F J T S × Call F T → AppState F J T S × Task F J T
  as_task q (s, c) = (s, task_at q (after_stage show c.id c.req c.stage))

  -- So many steps of a task whose action stands there go as those of its call.
  AsCall : ℕ → Request F T → Uuid → PlayActionRequest F → Stage F → AppState F J T S → Type 0
  AsCall n q id req st s =
      run_task show n (task_at q (after_stage show id req st)) s
      ≡ as_task q (run_call n (call_of q id req st) s)

  act-AsCall :
      (n : ℕ) (q : Request F T) (id : Uuid) (req : PlayActionRequest F) (st : Stage F)
      (s : AppState F J T S)
      → ((st' : Stage F) (s' : AppState F J T S) → AsCall n q id req st' s')
      → let (s', c') = advance_call st (call_of q id req st) s in
        run_task show n (task_at q (after_stage show id req c'.stage)) s'
        ≡ as_task q (run_call (suc n) (call_of q id req st) s)
  unfolding AsCall
  act-AsCall n q id req st s rest =
      let (s', c') = advance_call st (call_of q id req st) s in
      rest c'.stage s'
      ∙ ap (λ (c : Call F T). as_task q (run_call n c s'))
          (sym (same_call st (call_of q id req st) s))

  run_act :
      (n : ℕ) (q : Request F T) (id : Uuid) (req : PlayActionRequest F) (st : Stage F)
      (s : AppState F J T S)
      → AsCall n q id req st s
  unfolding AsCall advance_task advance_call
  run_act zero q id req st s = refl
  run_act (suc n) q id req (answered a) s = run_act n q id req (answered a) s
  run_act (suc n) q id req called s = act-AsCall n q id req called s (run_act n q id req)
  run_act (suc n) q id req (looked prev) s =
      act-AsCall n q id req (looked prev) s (run_act n q id req)
  run_act (suc n) q id req (decided prev to) s =
      act-AsCall n q id req (decided prev to) s (run_act n q id req)
  run_act (suc n) q id req (moved prev x) s =
      act-AsCall n q id req (moved prev x) s (run_act n q id req)
  run_act (suc n) q id req (counted prev x) s =
      act-AsCall n q id req (counted prev x) s (run_act n q id req)
  run_act (suc n) q id req (logged prev x) s =
      act-AsCall n q id req (logged prev x) s (run_act n q id req)

  metrics_alone :
      (q : Request F T) (s : AppState F J T S)
      → run_task show 5 (task_at q (after_role s.metrics.sessions_created (role_of q.auth s))) s
        ≡ answered_by q (dispatch show q get_metrics s)
  unfolding advance_task metrics_handler from_code
  metrics_alone q s = elim (Option-cases (parse_bearer_token q.auth)) [
    | inl missing ↦ rw (role_missing q.auth s missing, missing, metrics_handler) refl
    | inr (token, parsed) ↦
        let role = role_parsed q.auth token s parsed in
        elim (Result-cases (validate_token token s.api_keys)) [
          | inl (user, valid) ↦ rw (role, parsed, valid, metrics_handler) refl
          | inl (admin, valid) ↦ rw (role, parsed, valid, metrics_handler) refl
          | inr (e, invalid) ↦ rw (role, parsed, invalid, metrics_handler) refl
        ]
  ]

  events_alone :
      (q : Request F T) (id : Uuid) (s : AppState F J T S)
      → let (s', p) = after_lookup show id (on_sessions (Manager.get_session session_store id) s) in
        run_task show 5 (task_at q p) s' ≡ answered_by q (dispatch show q (session_events id) s)
  unfolding advance_task Manager.get_session session_get_by_id session_events_handler
  events_alone q id s = elim (Option-cases (get id s.session_repo)) [
    | inl missing ↦ rw missing refl
    | inr (x, found) ↦ rw found refl
  ]

  -- The steps of a handler from its first on.
  begin-dispatch :
      (q : Request F T) (route : Route F) (s : AppState F J T S)
      → let (s', p) = begin show q route s in
        run_task show 5 (task_at q p) s' ≡ answered_by q (dispatch show q route s)
  unfolding begin advance_task create_session_handler Manager.create_session session_create
  begin-dispatch q (create_session req) s = refl
  begin-dispatch q (play_action id req) s =
      act-AsCall 5 q id req called s (run_act 5 q id req)
      ∙ ap (as_task q) (run_call-play_action_handler (call_of q id req called) s)
  begin-dispatch q (session_events id) s = events_alone q id s
  begin-dispatch q get_metrics s = metrics_alone q s
  begin-dispatch q (get_session id) s = refl
  begin-dispatch q (create_wallet req) s = refl
  begin-dispatch q (wallet_operation id req) s = refl
  begin-dispatch q (game_fingerprint id) s = refl
  begin-dispatch q (rl_export query) s = refl

  -- A request whose eight steps no other request interrupts has the effect and the answer of `app`.
  pub run_task-app :
      (q : Request F T) (s : AppState F J T S)
      → let (s', a) = app show q s in
        run_task show 8 (incoming q) s ≡ (s', record { request = q; progress = responded a })
  unfolding advance_task app rate_limit_middleware auth_middleware from_code
  run_task-app q s = elim (Option-cases (parse_bearer_token q.auth)) [
    | inl missing ↦ rw (role_missing q.auth s missing, missing, auth_middleware) refl
    | inr (token, parsed) ↦
        let role = role_parsed q.auth token s parsed in
        elim (Result-cases (validate_token token s.api_keys)) [
          | inl (granted, valid) ↦
              let (limiter, allowed) = check (key_of q.auth) q.now s.rate_limiter in
              let s' : AppState F J T S = record s { rate_limiter = limiter } in
              rw (role, parsed, valid, auth_middleware)
                (elim (Bool-cases allowed) [
                  | inl yes_ ↦ rw yes_ (begin-dispatch q q.route s')
                  | inr no_ ↦ rw no_ refl
                ])
          | inr (e, invalid) ↦ rw (role, parsed, invalid, auth_middleware) refl
        ]
  ]
