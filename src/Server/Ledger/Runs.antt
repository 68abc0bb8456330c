-- ===== src/Server/Ledger/Runs.antt =====
-- The service of cli/src/server.rs, behind its layers and over any requests, against the ledger.
use pokemon_rs.Prelude.{
  ◌≡◌, refl, ap, ◌∙◌, inl, inr, Bool, true, false, ◌&&◌, Option, none, some, List, [], ◌∷◌, arith,
  if◌then◌else◌, Bool-cases, Option-cases, Text, codes, ok, err, Result-cases, text_eq,
}
use pokemon_rs.Float.{F64}
use pokemon_rs.Json.{Json, Serialize, IsSerde, DateTime}
use pokemon_rs.Api.{Uuid}
use pokemon_rs.Domain.{AppConfig}
use pokemon_rs.Auth.{Role, AuthError, parse_bearer_token, validate_token}
use pokemon_rs.RateLimit.{check}
use pokemon_rs.Rl.Store.{InMemoryStore, in_memory_store}
use pokemon_rs.AppState.{AppState}
use pokemon_rs.Server.Middleware.{
  Service, unauthorized_response, auth_middleware, rate_limit_middleware,
}
use pokemon_rs.Server.Router.{Payload, Request, dispatch, app}
use pokemon_rs.Server.Guards.{key_of}
use pokemon_rs.Server.Answers.{serves}
use pokemon_rs.Server.Throttle.{app-config}
use pokemon_rs.Server.Ledger.{Ledger, ledger, route_spec}
use pokemon_rs.Server.Ledger.Handlers.{dispatch-ledger}

-- Whether a header carries an accepted token.
abbrev pub accepts : Option Text → List Text → Bool
accepts auth keys = elim (parse_bearer_token auth) [
  | none ↦ false
  | some t ↦ elim (validate_token t keys) [ ok _ ↦ true | err _ ↦ false ]
]

-- Whether a request passes both layers.
abbrev pub admitted : {F J T S : Type 0} → Request F T → AppState F J T S → Bool
admitted q s = accepts q.auth s.api_keys && (check (key_of q.auth) q.now s.rate_limiter).1

module _ {F J T : Type 0} ⦃f : F64 F⦄ ⦃j : Json J⦄ ⦃w : Serialize F J⦄ where
  -- What requests do that all pass the layers.
  abbrev pub specs : AppConfig F → List (Request F T) → Ledger F J T → Ledger F J T
  specs config [] l = l
  specs config (q ∷ qs) l = specs config qs (route_spec config q q.route l)

module _ {F J T S A : Type 0} where
  middleware_missing :
      (auth : Option Text) (run : Service F J T S A) (s : AppState F J T S)
      → parse_bearer_token auth ≡ none
      → auth_middleware auth run s
        ≡ (s, some (unauthorized_response (codes "Missing or invalid Authorization")))
  unfolding auth_middleware
  middleware_missing auth run s missing = rw (missing, auth_middleware) refl

  middleware_invalid :
      (auth : Option Text) (run : Service F J T S A) (s : AppState F J T S) (t : Text)
      (e : AuthError)
      → parse_bearer_token auth ≡ some t
      → validate_token t s.api_keys ≡ err e
      → auth_middleware auth run s
        ≡ (s, some (unauthorized_response (codes "Missing or invalid Authorization")))
  unfolding auth_middleware
  middleware_invalid auth run s t e parsed invalid = rw (parsed, invalid, auth_middleware) refl

  middleware_valid :
      (auth : Option Text) (run : Service F J T S A) (s : AppState F J T S) (t : Text) (role : Role)
      → parse_bearer_token auth ≡ some t
      → validate_token t s.api_keys ≡ ok role
      → auth_middleware auth run s ≡ run s
  unfolding auth_middleware
  middleware_valid auth run s t role parsed valid = rw (parsed, valid, auth_middleware) refl

module _ {F J T : Type 0} ⦃f : F64 F⦄ ⦃j : Json J⦄ ⦃w : Serialize F J⦄ ⦃d : DateTime T⦄
    (show : Uuid → Text) where
  -- The requests of a run that pass the layers.
  abbrev pub admitted_of :
      List (Request F T) → AppState F J T (InMemoryStore F J T) → List (Request F T)
  admitted_of [] s = []
  admitted_of (q ∷ qs) s =
      let rest = admitted_of qs (app show q s).0 in if admitted q s then q ∷ rest else rest

  app-ledger :
      (laws : IsSerde F J) (q : Request F T) (s : AppState F J T (InMemoryStore F J T))
      → ledger (app show q s).0
        ≡ (if admitted q s then route_spec s.config q q.route (ledger s) else ledger s)
  unfolding app rate_limit_middleware
  app-ledger laws q s =
      let limiter = (check (key_of q.auth) q.now s.rate_limiter).0 in
      let s' : AppState F J T (InMemoryStore F J T) = record s { rate_limiter = limiter } in
      let run : Service F J T (InMemoryStore F J T) (Payload F J T) =
        rate_limit_middleware q.auth q.now q.ask (dispatch show q q.route) in
      elim (Option-cases (parse_bearer_token q.auth)) [
        | inl missing ↦
            let out : admitted q s ≡ false = ground (arith, missing) in
            rw out (ap (λ p. ledger p.0) (middleware_missing q.auth run s missing))
        | inr (t, parsed) ↦ elim (Result-cases (validate_token t s.api_keys)) [
          | inl (role, valid) ↦
              let passed = middleware_valid q.auth run s t role parsed valid in
              elim (Bool-cases (check (key_of q.auth) q.now s.rate_limiter).1) [
                | inl yes_ ↦
                    let in_ : admitted q s ≡ true = ground (arith, parsed, valid, yes_) in
                    let served : app show q s ≡ dispatch show q q.route s' =
                      passed ∙ rw yes_ refl in
                    rw in_ (ap (λ p. ledger p.0) served ∙ dispatch-ledger show laws q q.route s')
                | inr no_ ↦
                    let out : admitted q s ≡ false = ground (arith, parsed, valid, no_) in
                    let refused : (app show q s).0 ≡ s' = ap (λ p. p.0) passed ∙ rw no_ refl in
                    rw out (ap ledger refused)
              ]
          | inr (e, invalid) ↦
              let out : admitted q s ≡ false = ground (arith, parsed, invalid) in
              rw out (ap (λ p. ledger p.0) (middleware_invalid q.auth run s t e parsed invalid))
        ]
      ]

  -- If actions are serialised with their type, then over the experience store in memory any
  -- requests leave the service, seen as a ledger of what it holds for each session and wallet with
  -- the order of events and experiences forgotten, as the abstract routes leave it that are run
  -- for those requests, in their order, that carry an accepted token and that the limiter allows.
  pub serves-ledger :
      (laws : IsSerde F J) (qs : List (Request F T)) (s : AppState F J T (InMemoryStore F J T))
      → ledger (serves show qs s) ≡ specs s.config (admitted_of qs s) (ledger s)
  serves-ledger laws [] s = refl
  serves-ledger laws (q ∷ qs) s =
      let s' = (app show q s).0 in
      let rest = admitted_of qs s' in
      let later =
        serves-ledger laws qs s'
        ∙ ap (λ c. specs c rest (ledger s')) (app-config show q s)
        ∙ ap (specs s.config rest) (app-ledger laws q s) in
      elim (Bool-cases (admitted q s)) [
        | inl yes_ ↦ rw yes_ (rw yes_ at later)
        | inr no_ ↦ rw no_ (rw no_ at later)
      ]
