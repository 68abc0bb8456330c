-- ===== src/Server/Tasks/Answers.antt =====
-- No step of a concurrent request to the service (cli/src/server.rs) panics.
use pokemon_rs.Prelude.{
  ℕ, ◌≢◌, inl, inr, Bool, true, false, Option, none, some, if◌then◌else◌, Option-cases, Text,
  Result, ok, err, nat_eq,
}
use pokemon_rs.Prelude.Map.{get}
use pokemon_rs.Float.{F64}
use pokemon_rs.Json.{Json, Serialize, DateTime}
use pokemon_rs.Api.{Uuid, PlayActionRequest}
use pokemon_rs.Auth.{Role, user, admin, AuthError}
use pokemon_rs.RateLimit.{check}
use pokemon_rs.Persistence.{session_get_by_id, session_create}
use pokemon_rs.Manager
use pokemon_rs.Rl.Store.{ExperienceStore}
use pokemon_rs.AppState.{AppState}
use pokemon_rs.Server.Guards.{key_of}
use pokemon_rs.Server.Race.{Stage, called, answered, advance_call}
use pokemon_rs.Server.Router.{
  Route, create_session, get_session, play_action, session_events, create_wallet, wallet_operation,
  game_fingerprint, rl_export, get_metrics, Request,
}
use pokemon_rs.Server.Answers.{dispatch-answers}
use pokemon_rs.Server.Tasks.{
  Progress, arrived, authorised, admitted, limited, created, acting, listing, read_created,
  read_completed, responded, call_of, begin, advance_task, after_stage, after_role, after_token,
  role_of,
}

-- The request has not ended without an answer.
abbrev pub Unbroken : {F J T : Type 0} → Progress F J T → Type 0
Unbroken (responded a) = a ≢ none
Unbroken _ = Unit

module _ (F J T : Type 0) where
  after_stage-Unbroken :
      (show : Uuid → Text) (id : Uuid) (req : PlayActionRequest F) (st : Stage F)
      → Unbroken {J = J} {T = T} (after_stage show id req st)
  after_stage-Unbroken show id req (answered a) = λ h. cc
  after_stage-Unbroken show id req _ = tt

  after_token-Unbroken :
      (o : Option (Result AuthError Role)) → Unbroken {F = F} {J = J} {T = T} (after_token o)
  after_token-Unbroken none = λ h. cc
  after_token-Unbroken (some (err e)) = λ h. cc
  after_token-Unbroken (some (ok role)) = tt

  after_role-Unbroken :
      (n : ℕ) (o : Option (Result AuthError Role))
      → Unbroken {F = F} {J = J} {T = T} (after_role n o)
  after_role-Unbroken n none = λ h. cc
  after_role-Unbroken n (some (err e)) = λ h. cc
  after_role-Unbroken n (some (ok user)) = λ h. cc
  after_role-Unbroken n (some (ok admin)) = tt

  check-Unbroken : (b : Bool) → Unbroken {F = F} {J = J} {T = T} (if b then admitted else limited)
  check-Unbroken true = tt
  check-Unbroken false = tt

module _ {F J T S : Type 0} ⦃f : F64 F⦄ ⦃j : Json J⦄ ⦃w : Serialize F J⦄ ⦃d : DateTime T⦄
    ⦃r : ExperienceStore F J T S⦄ (show : Uuid → Text) where
  begin-Unbroken :
      (q : Request F T) (route : Route F) (s : AppState F J T S) → Unbroken (begin show q route s).1
  unfolding begin Manager.create_session session_create Manager.get_session session_get_by_id
  begin-Unbroken q (create_session req) s = tt
  begin-Unbroken q (play_action id req) s =
      after_stage-Unbroken F J T show id req
        (advance_call called (call_of q id req called) s).1.stage
  begin-Unbroken q (session_events id) s = elim (Option-cases (get id s.session_repo)) [
    | inl missing ↦ rw missing (λ h. cc)
    | inr (x, found) ↦ rw found tt
  ]
  begin-Unbroken q get_metrics s =
      after_role-Unbroken F J T s.metrics.sessions_created (role_of q.auth s)
  begin-Unbroken q (get_session id) s = dispatch-answers show q (get_session id) s
  begin-Unbroken q (create_wallet req) s = dispatch-answers show q (create_wallet req) s
  begin-Unbroken q (wallet_operation id req) s = dispatch-answers show q (wallet_operation id req) s
  begin-Unbroken q (game_fingerprint id) s = dispatch-answers show q (game_fingerprint id) s
  begin-Unbroken q (rl_export query) s = dispatch-answers show q (rl_export query) s

  pub advance_task-Unbroken :
      (p : Progress F J T) (q : Request F T) (s : AppState F J T S)
      → Unbroken p
      → Unbroken (advance_task show p q s).1
  unfolding advance_task
  advance_task-Unbroken arrived q s u = after_token-Unbroken F J T (role_of q.auth s)
  advance_task-Unbroken authorised q s u =
      check-Unbroken F J T (check (key_of q.auth) q.now s.rate_limiter).1
  advance_task-Unbroken admitted q s u = begin-Unbroken q q.route s
  advance_task-Unbroken limited q s u = λ h. cc
  advance_task-Unbroken (created resp) q s u = λ h. cc
  advance_task-Unbroken (acting id req st) q s u =
      after_stage-Unbroken F J T show id req (advance_call st (call_of q id req st) s).1.stage
  advance_task-Unbroken (listing id) q s u = λ h. cc
  advance_task-Unbroken (read_created n) q s u = tt
  advance_task-Unbroken (read_completed n m) q s u = λ h. cc
  advance_task-Unbroken (responded a) q s u = u
