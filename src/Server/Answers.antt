-- ===== src/Server/Answers.antt =====
-- Every protected route of cli/src/server.rs answers, and the sessions that the routes store obey
-- the state machine.
use mathlib.Core.Path.{subst}
use pokemon_rs.Prelude.{
  ◌≡◌, sym, ap, ◌≢◌, inl, inr, Option, none, some, List, [], ◌∷◌, arith, Bool-cases, Text, ◌==◌,
  nat_eq,
}
use pokemon_rs.Prelude.Map.{get, insert, get-insert}
use pokemon_rs.StateEngine.{idle, initialized}
use pokemon_rs.StateEngine.Graph.{◌⟶*◌, here, Reach-transition, Reach-ne-idle}
use pokemon_rs.Float.{F64}
use pokemon_rs.Rl.Store.{ExperienceStore}
use pokemon_rs.Json.{Json, Serialize, DateTime}
use pokemon_rs.Api.{Uuid, Session, CreateSessionRequest, PlayActionRequest}
use pokemon_rs.Domain.{AppConfig}
use pokemon_rs.Persistence.{
  wallet_create, apply_operation, SessionStore, session_create, session_get_by_id,
}
use pokemon_rs.Manager.{default_metrics}
use pokemon_rs.Manager
use pokemon_rs.Rl.Export.{ExportParams, export_experiences}
use pokemon_rs.Rl.Export.Pages.{export_list-total}
use pokemon_rs.AppState.{AppState, with_config}
use pokemon_rs.Server.{
  Draw, create_session_handler, get_session_handler, play_action_handler, record_play,
  session_events_handler, create_wallet_handler, wallet_operation_handler, game_fingerprint_handler,
  rl_export_handler, next_state,
}
use pokemon_rs.Server.Play.{handler-cases, handler_granted}
use pokemon_rs.Server.Router.{
  Route, create_session, get_session, play_action, session_events, create_wallet, wallet_operation,
  game_fingerprint, rl_export, get_metrics, Request, dispatch, app,
}
use pokemon_rs.Server.Guards.{key_of, app-cases, app-Authenticated}
use pokemon_rs.RateLimit.{check}

-- Every stored session is in a state that the canonical machine reaches from `initialized`.
abbrev pub IsReachable : {F : Type 0} → SessionStore F → Type 0
IsReachable {F} m = (k : Uuid) (x : Session F) → get k m ≡ some x → initialized ⟶* x.state

-- An update by a session in a reachable state.
pub insert-IsReachable :
    {F : Type 0} (id : Uuid) (x : Session F) (m : SessionStore F)
    → IsReachable m
    → initialized ⟶* x.state
    → IsReachable (insert id x m)
insert-IsReachable id x m reach r k y found = elim (Bool-cases (id == k)) [
  | inl same ↦
      let e : x ≡ y = ground (arith, get-insert id k x m) in subst (λ z. initialized ⟶* z.state) e r
  | inr other ↦ reach k y (ground (arith, get-insert id k x m))
]

pub kept : {F : Type 0} {m n : SessionStore F} → m ≡ n → IsReachable n → IsReachable m
kept e reach = subst IsReachable (sym e) reach

not_none : {S A : Type 0} {p : S × Option A} {s : S} {a : A} → p ≡ (s, some a) → p.1 ≢ none
not_none e h = let k = ap (λ q. q.1) e in cc

module _ {F J T S : Type 0} ⦃f : F64 F⦄ where
  create_session_handler-IsReachable :
      (id : Uuid) (req : CreateSessionRequest F) (s : AppState F J T S)
      → IsReachable s.session_repo
      → IsReachable (create_session_handler id req s).0.session_repo
  unfolding create_session_handler Manager.create_session session_create
  create_session_handler-IsReachable id req s reach =
      insert-IsReachable id
        (record {
          session_id = id;
          game_id = req.game_id;
          state = initialized;
          metrics = default_metrics;
        })
        s.session_repo reach here

module _ {F J T S : Type 0} ⦃f : F64 F⦄ ⦃j : Json J⦄ ⦃w : Serialize F J⦄
    ⦃r : ExperienceStore F J T S⦄ where
  play_action_handler-IsReachable :
      (draw : Draw T) (id : Uuid) (req : PlayActionRequest F) (s : AppState F J T S)
      → IsReachable s.session_repo
      → IsReachable (play_action_handler draw id req s).0.session_repo
  unfolding record_play
  play_action_handler-IsReachable draw id req s reach = elim (handler-cases draw id req s) [
    | inl (e, same, why) ↦ rw same reach
    | inr (x, found, granted) ↦
        let to = next_state req.action.action_type in
        rw (handler_granted draw id req s x found granted) (
          insert-IsReachable id (record x { state = to }) s.session_repo reach
            (Reach-transition x.state to to (reach id x found) granted))
  ]

module _ {F J T S : Type 0} ⦃f : F64 F⦄ ⦃j : Json J⦄ ⦃w : Serialize F J⦄ ⦃d : DateTime T⦄
    ⦃r : ExperienceStore F J T S⦄ (show : Uuid → Text) where
  pub dispatch-IsReachable :
      (q : Request F T) (r : Route F) (s : AppState F J T S)
      → IsReachable s.session_repo
      → IsReachable (dispatch show q r s).0.session_repo
  unfolding get_session_handler Manager.get_session session_get_by_id session_events_handler
      create_wallet_handler wallet_create wallet_operation_handler apply_operation
      game_fingerprint_handler rl_export_handler
  dispatch-IsReachable q (create_session req) s reach =
      create_session_handler-IsReachable q.fresh req s reach
  dispatch-IsReachable q (play_action id req) s reach =
      play_action_handler-IsReachable q.draw id req s reach
  dispatch-IsReachable q (get_session id) s reach = reach
  dispatch-IsReachable q (session_events id) s reach = kept (ground arith) reach
  dispatch-IsReachable q (create_wallet req) s reach = reach
  dispatch-IsReachable q (wallet_operation id req) s reach = kept (ground arith) reach
  dispatch-IsReachable q (game_fingerprint id) s reach = kept (ground arith) reach
  dispatch-IsReachable q (rl_export params) s reach = kept (ground arith) reach
  dispatch-IsReachable q get_metrics s reach = reach

  pub dispatch-answers :
      (q : Request F T) (r : Route F) (s : AppState F J T S) → (dispatch show q r s).1 ≢ none
  unfolding rl_export_handler export_experiences
  dispatch-answers q (rl_export query) s h =
      let params : ExportParams = record {
        session_id = query.session_id;
        limit = query.limit;
        offset = query.offset;
      } in
      let (out, e) = export_list-total params (r.list_by_session query.session_id s.rl_store).1 in
      absurd (ground (arith, e))
  dispatch-answers q _ s h = cc

  -- No protected route panics: every request is answered, in particular the export of any page.
  pub app-answers : (q : Request F T) (s : AppState F J T S) → (app show q s).1 ≢ none
  app-answers q s h = elim (app-cases show q s) [
    | inl (role, who) ↦
        let (limiter, allowed) = check (key_of q.auth) q.now s.rate_limiter in
        let s' : AppState F J T S = record s { rate_limiter = limiter } in
        let (served, refused) = app-Authenticated show q s role who in
        elim (Bool-cases allowed) [
          | inl yes_ ↦ dispatch-answers q q.route s' (rw (served yes_) at h)
          | inr no_ ↦ absurd (not_none (refused no_).0 h)
        ]
    | inr refused ↦ absurd (not_none refused h)
  ]

  app-IsReachable :
      (q : Request F T) (s : AppState F J T S)
      → IsReachable s.session_repo
      → IsReachable (app show q s).0.session_repo
  app-IsReachable q s reach = elim (app-cases show q s) [
    | inl (role, who) ↦
        let (limiter, allowed) = check (key_of q.auth) q.now s.rate_limiter in
        let s' : AppState F J T S = record s { rate_limiter = limiter } in
        let (served, refused) = app-Authenticated show q s role who in
        elim (Bool-cases allowed) [
          | inl yes_ ↦ rw (served yes_) (dispatch-IsReachable q q.route s' reach)
          | inr no_ ↦ rw (refused no_).0 reach
        ]
    | inr refused ↦ rw refused reach
  ]

  -- The state after a list of requests.
  abbrev pub serves : List (Request F T) → AppState F J T S → AppState F J T S
  serves [] s = s
  serves (q ∷ qs) s = serves qs (app show q s).0

  serves-reach :
      (qs : List (Request F T)) (s : AppState F J T S)
      → IsReachable s.session_repo
      → IsReachable (serves qs s).session_repo
  serves-reach [] s reach = reach
  serves-reach (q ∷ qs) s reach = serves-reach qs (app show q s).0 (app-IsReachable q s reach)

module _ {F T S : Type 0} ⦃f : F64 F⦄ ⦃d : DateTime T⦄ where
  -- Whatever requests a newly started service, over any store of experiences, is sent, with or
  -- without valid tokens, every session that it then stores is in a state that the canonical
  -- machine reaches from `initialized`, and so never in `idle`.
  pub serves-IsReachable :
      (J : Type 0) ⦃j : Json J⦄ ⦃w : Serialize F J⦄ ⦃r : ExperienceStore F J T S⦄
      (show : Uuid → Text) (replay : S) (keys : Option Text) (config : AppConfig F)
      (qs : List (Request F T)) (k : Uuid) (x : Session F)
      → get k (serves show qs (with_config {J = J} replay keys config)).session_repo ≡ some x
      → (initialized ⟶* x.state) × (x.state ≢ idle)
  unfolding with_config get
  serves-IsReachable J show replay keys config qs k x found =
      let reach =
        serves-reach show qs (with_config {J = J} replay keys config) (λ j y h. cc) k x found in
      (reach, Reach-ne-idle reach)
