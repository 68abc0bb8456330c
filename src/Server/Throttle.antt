-- ===== src/Server/Throttle.antt =====
-- How many requests of one client the service of cli/src/server.rs serves in one window.
use Prim.Native.Nat.{min}
use pokemon_rs.Prelude.{
  ℕ, suc, ◌^◌, ◌<◌, ◌≡◌, refl, ◌∙◌, inl, inr, Bool, true, false, not, Option, none, some, List, [],
  ◌∷◌, map, arith, if◌then◌else◌, Bool-cases, length, All, length-map, Text, Result, ok, err,
  text_eq, nat_eq,
}
use pokemon_rs.Prelude.Map.{get}
use pokemon_rs.Float.{F64}
use pokemon_rs.Rl.Store.{ExperienceStore}
use pokemon_rs.Json.{Json, Serialize, DateTime}
use pokemon_rs.Api.{Uuid}
use pokemon_rs.Domain.{DomainError}
use pokemon_rs.Manager
use pokemon_rs.Auth.{Role}
use pokemon_rs.RateLimit.{check}
use pokemon_rs.Rl.Export.{ExportResponse}
use pokemon_rs.RateLimit.Window.{allowed, IsOpen, allowed_first_window}
use pokemon_rs.AppState.{AppState}
use pokemon_rs.Server.{
  create_session_handler, get_session_handler, record_play, session_events_handler,
  create_wallet_handler, wallet_operation_handler, game_fingerprint_handler, rl_export_handler,
}
use pokemon_rs.Server.Http.{Response, into_response, respond_with}
use pokemon_rs.Server.Middleware.{metrics_handler}
use pokemon_rs.Server.Play.{handler-cases, handler_granted}
use pokemon_rs.Server.Router.{
  exported_response, Route, create_session, get_session, play_action, session_events, create_wallet,
  wallet_operation, game_fingerprint, rl_export, get_metrics, Request, dispatch, app,
}
use pokemon_rs.Server.Answers.{serves}
use pokemon_rs.Server.Guards.{app-cases, Authenticated, key_of, app-Authenticated}

-- The answer is a refusal of the limiter: it says how long to wait.
abbrev pub is_throttled : {A : Type 0} → Option (Response A) → Bool
is_throttled none = false
is_throttled (some r) = elim r.retry_after [ none ↦ false | some _ ↦ true ]

-- A handler keeps the limiter, the keys and the configuration.
abbrev Keeps : {F J T S : Type 0} → AppState F J T S → AppState F J T S → Type 0
Keeps s s' =
    (s'.rate_limiter ≡ s.rate_limiter) × (s'.api_keys ≡ s.api_keys) × (s'.config ≡ s.config)

respond_with-is_throttled :
    {A B : Type 0} (show : Uuid → Text) (status : ℕ) (wrap : A → B) (r : Result DomainError A)
    → is_throttled (some (respond_with show status wrap r)) ≡ false
unfolding into_response
respond_with-is_throttled show status wrap (ok a) = refl
respond_with-is_throttled show status wrap (err e) = refl

exported_response-is_throttled :
    {F J T S : Type 0} (show : Uuid → Text) (s : AppState F J T S)
    (out : Option (Result DomainError (ExportResponse F J T)))
    → is_throttled (exported_response show (s, out)).1 ≡ false
exported_response-is_throttled show s none = refl
exported_response-is_throttled show s (some out) = respond_with-is_throttled show 200 _ out

module _ {F J T S : Type 0} ⦃f : F64 F⦄ ⦃j : Json J⦄ ⦃w : Serialize F J⦄ ⦃d : DateTime T⦄
    ⦃r : ExperienceStore F J T S⦄ (show : Uuid → Text) where
  dispatch-Keeps :
      (q : Request F T) (r : Route F) (s : AppState F J T S) → Keeps s (dispatch show q r s).0
  unfolding create_session_handler Manager.create_session get_session_handler Manager.get_session
      session_events_handler create_wallet_handler wallet_operation_handler game_fingerprint_handler
      rl_export_handler record_play
  dispatch-Keeps q (create_session req) s = ground arith
  dispatch-Keeps q (get_session id) s = ground arith
  dispatch-Keeps q (play_action id req) s = elim (handler-cases q.draw id req s) [
    | inl (e, same, why) ↦ rw same (refl, refl, refl)
    | inr (x, found, granted) ↦
        rw (handler_granted q.draw id req s x found granted) (refl, refl, refl)
  ]
  dispatch-Keeps q (session_events id) s = ground arith
  dispatch-Keeps q (create_wallet req) s = ground arith
  dispatch-Keeps q (wallet_operation id req) s = ground arith
  dispatch-Keeps q (game_fingerprint id) s = ground arith
  dispatch-Keeps q (rl_export params) s = ground arith
  dispatch-Keeps q get_metrics s = (refl, refl, refl)

  dispatch-is_throttled :
      (q : Request F T) (r : Route F) (s : AppState F J T S)
      → is_throttled (dispatch show q r s).1 ≡ false
  unfolding rl_export_handler metrics_handler
  dispatch-is_throttled q (create_session req) s = respond_with-is_throttled show 201 _ _
  dispatch-is_throttled q (get_session id) s = respond_with-is_throttled show 200 _ _
  dispatch-is_throttled q (play_action id req) s = respond_with-is_throttled show 200 _ _
  dispatch-is_throttled q (session_events id) s = respond_with-is_throttled show 200 _ _
  dispatch-is_throttled q (create_wallet req) s = respond_with-is_throttled show 201 _ _
  dispatch-is_throttled q (wallet_operation id req) s = respond_with-is_throttled show 200 _ _
  dispatch-is_throttled q (game_fingerprint id) s = respond_with-is_throttled show 200 _ _
  dispatch-is_throttled q (rl_export query) s =
      exported_response-is_throttled show _ (rl_export_handler query s).1
  dispatch-is_throttled q get_metrics s = ground arith

  app-limiter :
      (q : Request F T) (s : AppState F J T S) (role : Role)
      → Authenticated q.auth s.api_keys role
      → let (limiter, ok_) = check (key_of q.auth) q.now s.rate_limiter in
        let (s', r) = app show q s in
        (s'.rate_limiter ≡ limiter) × (s'.api_keys ≡ s.api_keys) × (is_throttled r ≡ not ok_)
  app-limiter q s role who =
      let (limiter, ok_) = check (key_of q.auth) q.now s.rate_limiter in
      let s' : AppState F J T S = record s { rate_limiter = limiter } in
      let (served, refused) = app-Authenticated show q s role who in
      elim (Bool-cases ok_) [
        | inl yes_ ↦
            let (limiter_, keys, config) = dispatch-Keeps q q.route s' in
            rw (served yes_, yes_) (limiter_, keys, dispatch-is_throttled q q.route s')
        | inr no_ ↦ rw ((refused no_).0, no_) (refl, refl, refl)
      ]

  -- No request changes the configured keys.
  app-api_keys : (q : Request F T) (s : AppState F J T S) → (app show q s).0.api_keys ≡ s.api_keys
  app-api_keys q s = elim (app-cases show q s) [
    | inl (role, who) ↦ (app-limiter q s role who).1
    | inr refused ↦ rw refused refl
  ]

  pub serves-api_keys :
      (qs : List (Request F T)) (s : AppState F J T S) → (serves show qs s).api_keys ≡ s.api_keys
  serves-api_keys [] s = refl
  serves-api_keys (q ∷ qs) s = serves-api_keys qs (app show q s).0 ∙ app-api_keys q s

  -- No request changes the configuration.
  pub app-config : (q : Request F T) (s : AppState F J T S) → (app show q s).0.config ≡ s.config
  app-config q s = elim (app-cases show q s) [
    | inl (role, who) ↦
        let (limiter, ok_) = check (key_of q.auth) q.now s.rate_limiter in
        let s' : AppState F J T S = record s { rate_limiter = limiter } in
        let (served, refused) = app-Authenticated show q s role who in
        elim (Bool-cases ok_) [
          | inl yes_ ↦ rw (served yes_) (dispatch-Keeps q q.route s').2
          | inr no_ ↦ rw (refused no_).0 refl
        ]
    | inr refused ↦ rw refused refl
  ]

  -- How many of the requests the limiter lets pass to their handlers.
  abbrev pub passes : List (Request F T) → AppState F J T S → ℕ
  passes [] s = 0
  passes (q ∷ qs) s =
      let (s', r) = app show q s in
      let rest = passes qs s' in if is_throttled r then rest else suc rest

  passes-lem :
      (auth : Option Text) (role : Role) (qs : List (Request F T)) (s : AppState F J T S)
      → Authenticated auth s.api_keys role
      → All (λ q. q.auth ≡ auth) qs
      → passes qs s ≡ allowed (key_of auth) (map (λ q. q.now) qs) s.rate_limiter
  passes-lem auth role [] s who same = refl
  passes-lem auth role (q ∷ qs) s who (e, same) =
      let who' : Authenticated q.auth s.api_keys role = rw e who in
      let (limiter, keys, answer) = app-limiter q s role who' in
      let later : Authenticated auth (app show q s).0.api_keys role = rw keys who in
      let rest = passes-lem auth role qs (app show q s).0 later same in
      ground (arith, e, limiter, answer, rest)

  -- Requests that carry one header with an accepted token, which the limiter has not met, and that
  -- all arrive within one window, which is not empty, from the first: as many of them as the
  -- limiter's maximum, a 32-bit number, allows reach their handlers, on whatever routes and
  -- whatever the handlers answer, and all others are told how long to wait.
  pub passes_first_window :
      (auth : Option Text) (role : Role) (q : Request F T) (qs : List (Request F T))
      (s : AppState F J T S)
      → Authenticated auth s.api_keys role
      → All (λ p. p.auth ≡ auth) (q ∷ qs)
      → get (key_of auth) s.rate_limiter.inner ≡ none
      → s.rate_limiter.max_requests < 2 ^ 32
      → 0 < s.rate_limiter.window
      → All (IsOpen s.rate_limiter.window q.now) (map (λ p. p.now) qs)
      → passes (q ∷ qs) s ≡ min (length (q ∷ qs)) s.rate_limiter.max_requests
  passes_first_window auth role q qs s who same fresh small some_ opens =
      let counted =
        allowed_first_window (key_of auth) q.now (map (λ p. p.now) qs) s.rate_limiter fresh small
          some_ opens in
      ground (arith, passes-lem auth role (q ∷ qs) s who same, counted, length-map (λ p. p.now) qs)
