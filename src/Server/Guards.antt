-- ===== src/Server/Guards.antt =====
-- What the layers of cli/src/server.rs guarantee of every protected route.
use pokemon_rs.Prelude.{
  ℕ, ◌≤◌, ◌≡◌, refl, ap, ◌∙◌, ◌↔◌, ◌⊎◌, inl, inr, true, false, Option, none, some, List, arith,
  if◌then◌else◌, Bool-cases, Option-cases, Text, codes, ok, err, Result-cases,
}
use pokemon_rs.Float.{F64}
use pokemon_rs.Rl.Store.{ExperienceStore}
use pokemon_rs.Json.{Json, Serialize, DateTime}
use pokemon_rs.Api.{Uuid, from_code, rate_limit}
use pokemon_rs.Auth.{Role, user, admin, parse_bearer_token, validate_token}
use pokemon_rs.Auth.Bearer.{IsToken, Carries, parse_bearer_token_iff}
use pokemon_rs.Auth.Tokens.{Accepted, validate_token_iff}
use pokemon_rs.RateLimit.{Instant, check, retry_after_seconds, retry_entry}
use pokemon_rs.AppState.{AppState}
use pokemon_rs.Server.{unwrap_or}
use pokemon_rs.Server.Http.{Response}
use pokemon_rs.Server.Middleware.{
  Service, unauthorized_response, auth_middleware, rate_limit_middleware, metrics_handler,
  metrics_for,
}
use pokemon_rs.Server.Router.{Request, get_metrics, dispatch, app}

-- A header that carries an accepted token with the role.
abbrev pub Authenticated : Option Text → List Text → Role → Type 0
Authenticated auth keys role =
    (h t : Text) × (auth ≡ some h) × IsToken t × Carries h t × Accepted t keys role

module _ {F J T S A : Type 0} where
  middleware_passed :
      (auth : Option Text) (run : Service F J T S A) (s : AppState F J T S) (role : Role)
      → Authenticated auth s.api_keys role
      → auth_middleware auth run s ≡ run s
  unfolding auth_middleware
  middleware_passed auth run s role (h, t, same, token, carries, accepted) =
      let parsed : parse_bearer_token auth ≡ some t =
        rw same ((parse_bearer_token_iff h t).1 (token, carries)) in
      let valid : validate_token t s.api_keys ≡ ok role =
        (validate_token_iff t s.api_keys role).1 accepted in
      rw (parsed, valid, auth_middleware) refl

  middleware-cases :
      (auth : Option Text) (run : Service F J T S A) (s : AppState F J T S)
      → ((role : Role) × Authenticated auth s.api_keys role)
        ⊎ (auth_middleware auth run s
            ≡ (s, some (unauthorized_response (codes "Missing or invalid Authorization"))))
  unfolding auth_middleware parse_bearer_token
  middleware-cases none run s = inr refl
  middleware-cases (some h) run s = elim (Option-cases (parse_bearer_token (some h))) [
    | inl missing ↦ inr (rw (missing, auth_middleware) refl)
    | inr (t, parsed) ↦ elim (Result-cases (validate_token t s.api_keys)) [
      | inl (role, valid) ↦
          let (token, carries) = (parse_bearer_token_iff h t).0 parsed in
          inl (role, (h, t, refl, token, carries, (validate_token_iff t s.api_keys role).0 valid))
      | inr (e, invalid) ↦ inr (rw (parsed, invalid, auth_middleware) refl)
    ]
  ]

-- The limiter's key of a request.
abbrev pub key_of : Option Text → Text
key_of auth = unwrap_or (codes "anon") auth

abbrev pub status_of : {A : Type 0} → Option (Response A) → Option ℕ
status_of none = none
status_of (some r) = some r.status

abbrev pub metrics_status : Role → ℕ
metrics_status admin = 200
metrics_status user = 403

pub metrics_handler_status :
    {F J T S : Type 0} (auth : Option Text) (s : AppState F J T S) (role : Role)
    → Authenticated auth s.api_keys role
    → (metrics_handler auth s).status ≡ metrics_status role
unfolding metrics_handler
metrics_handler_status auth s role (h, t, same, token, carries, accepted) =
    let parsed : parse_bearer_token auth ≡ some t =
      rw same ((parse_bearer_token_iff h t).1 (token, carries)) in
    let valid : validate_token t s.api_keys ≡ ok role =
      (validate_token_iff t s.api_keys role).1 accepted in
    rw (parsed, valid, metrics_handler) (of_role role)
  where
    of_role : (r : Role) → (metrics_for s (ok r)).status ≡ metrics_status r
    of_role user = refl
    of_role admin = refl

abbrev pub limited : {A : Type 0} → ℕ → Response A
limited seconds = record {
  status = 429;
  retry_after = some seconds;
  body = err (from_code rate_limit (codes "rate limit exceeded"));
}

retry_entry_pos : (m w : ℕ) (t : Instant) (e : Option (Instant × ℕ)) → 1 ≤ retry_entry m w t e
unfolding retry_entry
retry_entry_pos m w t none = omega arith
retry_entry_pos m w t (some (start, count)) = ground arith

module _ {F J T S : Type 0} ⦃f : F64 F⦄ ⦃j : Json J⦄ ⦃w : Serialize F J⦄ ⦃d : DateTime T⦄
    ⦃r : ExperienceStore F J T S⦄ (show : Uuid → Text) (q : Request F T)
    (s : AppState F J T S) where
  pub app-cases :
      ((role : Role) × Authenticated q.auth s.api_keys role)
      ⊎ (app show q s
          ≡ (s, some (unauthorized_response (codes "Missing or invalid Authorization"))))
  unfolding app
  app-cases =
      middleware-cases q.auth (rate_limit_middleware q.auth q.now q.ask (dispatch show q q.route)) s

  -- On every protected route, a request whose header carries no accepted token, or that has no
  -- header, is answered 401, also if no keys are configured, and changes nothing: it is not even
  -- counted by the limiter.
  pub app-unauthorized :
      ((role : Role) → ¬ Authenticated q.auth s.api_keys role)
      → app show q s ≡ (s, some (unauthorized_response (codes "Missing or invalid Authorization")))
  app-unauthorized none_ = elim app-cases [
    | inl (role, who) ↦ absurd (none_ role who)
    | inr refused ↦ refused
  ]

  -- A request with an accepted token reaches its handler, in the state whose limiter has counted
  -- it, if the limiter allows it. Else it is answered 429 with a `Retry-After` of at least a
  -- second, and only the limiter changes.
  pub app-Authenticated :
      (role : Role)
      → Authenticated q.auth s.api_keys role
      → let (limiter, allowed) = check (key_of q.auth) q.now s.rate_limiter in
        let s' : AppState F J T S = record s { rate_limiter = limiter } in
        let seconds = retry_after_seconds (key_of q.auth) q.ask limiter in
        (allowed ≡ true → app show q s ≡ dispatch show q q.route s')
        × (allowed ≡ false → (app show q s ≡ (s', some (limited seconds))) × (1 ≤ seconds))
  unfolding app rate_limit_middleware retry_after_seconds
  app-Authenticated role who =
      let passed =
        middleware_passed q.auth
          (rate_limit_middleware q.auth q.now q.ask (dispatch show q q.route)) s role who in
      let limiter = (check (key_of q.auth) q.now s.rate_limiter).0 in
      (
        λ yes_. passed ∙ rw yes_ refl,
        λ no_. (passed ∙ rw no_ refl, retry_entry_pos limiter.max_requests limiter.window q.ask _),
      )

  metrics_answer :
      (role : Role)
      → q.route ≡ get_metrics
      → Authenticated q.auth s.api_keys role
      → status_of (app show q s).1
        ≡ some (if (check (key_of q.auth) q.now s.rate_limiter).1 then metrics_status role else 429)
  metrics_answer role route who =
      let (limiter, allowed) = check (key_of q.auth) q.now s.rate_limiter in
      let s' : AppState F J T S = record s { rate_limiter = limiter } in
      let (served, refused) = app-Authenticated role who in
      elim (Bool-cases allowed) [
        | inl yes_ ↦
            rw (served yes_, route, yes_) (ap some (metrics_handler_status q.auth s' role who))
        | inr no_ ↦ rw ((refused no_).0, no_) refl
      ]

  -- Only an administrator reads the counters: a request of the metrics is answered 200 exactly when
  -- its header carries an accepted token whose role is "admin" and the limiter allows the request.
  pub app-get_metrics :
      q.route ≡ get_metrics
      → (status_of (app show q s).1 ≡ some 200) ↔ (
          Authenticated q.auth s.api_keys admin
          × ((check (key_of q.auth) q.now s.rate_limiter).1 ≡ true))
  app-get_metrics route = (only, λ (who, yes_). ground (arith, metrics_answer admin route who))
    where
      only :
          status_of (app show q s).1 ≡ some 200
          → Authenticated q.auth s.api_keys admin
            × ((check (key_of q.auth) q.now s.rate_limiter).1 ≡ true)
      only h = elim app-cases [
        | inl (admin, who) ↦ (who, ground (arith, metrics_answer admin route who))
        | inl (user, who) ↦ absurd (ground (arith, metrics_answer user route who))
        | inr refused ↦ absurd (ground (arith, refused))
      ]
