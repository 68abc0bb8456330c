-- ===== src/Server/Tasks/Sessions.antt =====
-- The sessions under concurrent requests to the service (cli/src/server.rs).
use mathlib.Core.Path.{subst}
use pokemon_rs.Prelude.{
  ℕ, ◌≡◌, refl, sym, ◌⊎◌, inl, inr, Bool, true, false, Option, none, some, List, ◌++◌, map, arith,
  if◌then◌else◌, Option-cases, Text, Result, ok, err, nat_eq,
}
use pokemon_rs.Prelude.Map.{get}
use pokemon_rs.Prelude.Schedule.{map-All_always, interleave-kept_past}
use pokemon_rs.StateEngine.{GameState, initialized}
use pokemon_rs.StateEngine.Graph.{◌⟶◌}
use pokemon_rs.Float.{F64}
use pokemon_rs.Json.{Json, Serialize, DateTime}
use pokemon_rs.Api.{Uuid, Session, PlayActionRequest}
use pokemon_rs.Domain.{AppConfig}
use pokemon_rs.Persistence.{
  SessionStore, session_get_by_id, session_create, wallet_create, apply_operation,
}
use pokemon_rs.Manager.{default_metrics}
use pokemon_rs.Manager
use pokemon_rs.Auth.{Role, user, admin, AuthError}
use pokemon_rs.RateLimit.{check}
use pokemon_rs.Rl.Store.{ExperienceStore}
use pokemon_rs.AppState.{AppState, with_config}
use pokemon_rs.Server.Race.{Stage, called, decided, answered, advance_call}
use pokemon_rs.Server.Router.{
  Route, create_session, get_session, play_action, session_events, create_wallet, wallet_operation,
  game_fingerprint, rl_export, get_metrics, Request,
}
use pokemon_rs.Server.{
  get_session_handler, create_wallet_handler, wallet_operation_handler, game_fingerprint_handler,
  rl_export_handler,
}
use pokemon_rs.Server.Guards.{key_of}
use pokemon_rs.Server.Tasks.{
  after_stage, after_role, after_token, role_of, act, Progress, arrived, authorised, admitted,
  limited, created, acting, listing, read_created, read_completed, responded, Task, call_of, begin,
  advance_task, step_task, interleave_tasks, incoming,
}
use pokemon_rs.Server.Race.Sessions.{Follows, Stored, insert-Stored, Waits, advance_call-Kept}

-- A decision of an action waits with a state that its session can come to.
abbrev Pending : {F J T : Type 0} → (Uuid → GameState → Type 0) → Progress F J T → Type 0
Pending P (acting id req st) = Waits P id st
Pending P _ = Unit

same_sessions :
    {F : Type 0} {m n : SessionStore F} (P : Uuid → GameState → Type 0)
    → m ≡ n
    → Stored P n
    → Stored P m
same_sessions P e stored = subst (Stored P) (sym e) stored

module _ (F J T : Type 0) (P : Uuid → GameState → Type 0) where
  after_stage-Pending :
      (show : Uuid → Text) (id : Uuid) (req : PlayActionRequest F) (st : Stage F)
      → Waits P id st
      → Pending {J = J} {T = T} P (after_stage show id req st)
  after_stage-Pending show id req (answered a) wait = tt
  after_stage-Pending show id req (decided prev to) wait = wait
  after_stage-Pending show id req _ wait = tt

  after_role-Pending :
      (n : ℕ) (o : Option (Result AuthError Role))
      → Pending {F = F} {J = J} {T = T} P (after_role n o)
  after_role-Pending n none = tt
  after_role-Pending n (some (err e)) = tt
  after_role-Pending n (some (ok user)) = tt
  after_role-Pending n (some (ok admin)) = tt

  after_token-Pending :
      (o : Option (Result AuthError Role)) → Pending {F = F} {J = J} {T = T} P (after_token o)
  after_token-Pending none = tt
  after_token-Pending (some (err e)) = tt
  after_token-Pending (some (ok role)) = tt

  check-Pending : (b : Bool) → Pending {F = F} {J = J} {T = T} P (if b then admitted else limited)
  check-Pending true = tt
  check-Pending false = tt

module _ {F J T S : Type 0} ⦃f : F64 F⦄ ⦃j : Json J⦄ ⦃w : Serialize F J⦄ ⦃d : DateTime T⦄
    ⦃r : ExperienceStore F J T S⦄ (show : Uuid → Text) (Seen : Uuid → GameState → Type 0) where
  abbrev Sound : AppState F J T S × Progress F J T → Type 0
  Sound (s, p) = Stored (Follows Seen) s.session_repo × Pending (Follows Seen) p

  act-Sound :
      (q : Request F T) (id : Uuid) (req : PlayActionRequest F) (st : Stage F)
      (s : AppState F J T S)
      → Waits (Follows Seen) id st
      → Stored Seen s.session_repo
      → Stored (Follows Seen) s.session_repo
      → Sound (act show q id req st s)
  act-Sound q id req st s wait seen reach =
      let (reach', wait') = advance_call-Kept Seen st (call_of q id req st) s wait seen reach in
      (
        reach',
        after_stage-Pending F J T (Follows Seen) show id req
            (advance_call st (call_of q id req st) s).1.stage wait',
      )

  begin-Sound :
      (q : Request F T) (route : Route F) (s : AppState F J T S)
      → Stored Seen s.session_repo
      → Stored (Follows Seen) s.session_repo
      → Sound (begin show q route s)
  unfolding begin Manager.create_session session_create Manager.get_session session_get_by_id
      get_session_handler create_wallet_handler wallet_create wallet_operation_handler
      apply_operation game_fingerprint_handler rl_export_handler
  begin-Sound q (create_session req) s seen reach = (
    insert-Stored (Follows Seen) q.fresh
        (record {
          session_id = q.fresh;
          game_id = req.game_id;
          state = initialized;
          metrics = default_metrics;
        })
        s.session_repo reach (inl refl),
    tt,
  )
  begin-Sound q (play_action id req) s seen reach = act-Sound q id req called s tt seen reach
  begin-Sound q (session_events id) s seen reach = elim (Option-cases (get id s.session_repo)) [
    | inl missing ↦ rw missing (reach, tt)
    | inr (x, found) ↦ rw found (reach, tt)
  ]
  begin-Sound q get_metrics s seen reach =
      (reach, after_role-Pending F J T (Follows Seen) s.metrics.sessions_created (role_of q.auth s))
  begin-Sound q (get_session id) s seen reach = (reach, tt)
  begin-Sound q (create_wallet req) s seen reach = (reach, tt)
  begin-Sound q (wallet_operation id req) s seen reach =
      (same_sessions (Follows Seen) (ground arith) reach, tt)
  begin-Sound q (game_fingerprint id) s seen reach =
      (same_sessions (Follows Seen) (ground arith) reach, tt)
  begin-Sound q (rl_export query) s seen reach =
      (same_sessions (Follows Seen) (ground arith) reach, tt)

  advance_task-Sound :
      (p : Progress F J T) (q : Request F T) (s : AppState F J T S)
      → Pending (Follows Seen) p
      → Stored Seen s.session_repo
      → Stored (Follows Seen) s.session_repo
      → Sound (advance_task show p q s)
  unfolding advance_task
  advance_task-Sound admitted q s wait seen reach = begin-Sound q q.route s seen reach
  advance_task-Sound (acting id req st) q s wait seen reach =
      act-Sound q id req st s wait seen reach
  advance_task-Sound arrived q s wait seen reach =
      (reach, after_token-Pending F J T (Follows Seen) (role_of q.auth s))
  advance_task-Sound authorised q s wait seen reach =
      (reach, check-Pending F J T (Follows Seen) (check (key_of q.auth) q.now s.rate_limiter).1)
  advance_task-Sound limited q s wait seen reach = (reach, tt)
  advance_task-Sound (created resp) q s wait seen reach = (reach, tt)
  advance_task-Sound (listing id) q s wait seen reach = (reach, tt)
  advance_task-Sound (read_created n) q s wait seen reach = (reach, tt)
  advance_task-Sound (read_completed n m) q s wait seen reach = (reach, tt)
  advance_task-Sound (responded a) q s wait seen reach = (reach, tt)

module _ {F T S : Type 0} ⦃f : F64 F⦄ ⦃d : DateTime T⦄ where
  -- Whatever requests a newly started service, over any store of experiences, is sent at once, with
  -- or without valid tokens, and whatever the schedule of their atomic steps is: a session is
  -- stored in the state `initialized`, or after fewer or as many turns of the same schedule it was
  -- stored, under the same identifier, in a state from which an edge of the canonical machine leads
  -- to the present one.
  pub interleave_tasks-Follows :
      (J : Type 0) ⦃j : Json J⦄ ⦃w : Serialize F J⦄ ⦃r : ExperienceStore F J T S⦄
      (show : Uuid → Text) (replay : S) (keys : Option Text) (config : AppConfig F) (turns : List ℕ)
      (qs : List (Request F T)) (k : Uuid) (x : Session F)
      → let s = with_config {J = J} replay keys config in
        let after =
          λ (us : List ℕ). (interleave_tasks show us (map incoming qs) s).0.session_repo in
        get k (after turns) ≡ some x
        → (x.state ≡ initialized)
          ⊎ ((earlier later : List ℕ) × (y : Session F) × (turns ≡ earlier ++ later)
              × (get k (after earlier) ≡ some y)
              × (y.state ⟶ x.state))
  unfolding with_config get
  interleave_tasks-Follows J show replay keys config turns qs k x found =
      let s = with_config {J = J} replay keys config in
      let after = λ (us : List ℕ). (interleave_tasks show us (map incoming qs) s).0.session_repo in
      let Seen : Uuid → GameState → Type 0 = λ (id : Uuid) (st : GameState).
        (earlier later : List ℕ) × (y : Session F) × (turns ≡ earlier ++ later)
        × (get id (after earlier) ≡ some y)
        × (y.state ≡ st) in
      let G = λ (t : Task F J T). Pending (Follows Seen) t.progress in
      let follows =
        (interleave-kept_past (step_task show)
            (λ (s : AppState F J T S). Stored Seen s.session_repo)
            (λ (s : AppState F J T S). Stored (Follows Seen) s.session_repo) G
            (λ t s g past i. advance_task-Sound show Seen t.progress t.request s g past i) turns
            (map incoming qs) s (λ earlier later e id y here. (earlier, later, y, e, here, refl))
            (map-All_always incoming G (λ q. tt) qs) (λ i y h. cc)).0
          k x found in
      elim follows [
        | inl new ↦ inl new
        | inr (from, (earlier, later, y, e, stored, same), edge) ↦
            inr (earlier, later, y, e, stored, subst (λ u. u ⟶ x.state) (sym same) edge)
      ]
