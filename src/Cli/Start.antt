-- ===== src/Cli/Start.antt =====
-- What cli/src/main.rs starts, from the environment to the answers of the server.
use mathlib.Core.Path.{subst}
use mathlib.Core.List.{Memᴰ}
use mathlib.Core.Option.{some-injective}
use mathlib.Mathlib.Data.Multiset.Defs.{Multiset}
use pokemon_rs.Prelude.{
  ◌≤◌, ◌≡◌, refl, sym, ap, ◌∙◌, inl, inr, true, false, Option, some, List, ◌∷◌, arith, All, Text,
  codes, ok, Result-cases, text_eq,
}
use pokemon_rs.Float.{F64}
use pokemon_rs.Json.{Json, Serialize, DateTime, IsChronological}
use pokemon_rs.Api.{Uuid}
use pokemon_rs.Config.{Env, Parsers, from_env, database_url_of, nonempty}
use pokemon_rs.Auth.{Role, validate_token}
use pokemon_rs.RateLimit.{check, retry_after_seconds}
use pokemon_rs.Auth.Tokens.{role_of, Accepted, validate_token_iff}
use pokemon_rs.Auth.Bearer.{IsToken, Carries, parse_bearer_token_iff}
use pokemon_rs.Rl.Store.{Experience}
use pokemon_rs.Rl.Store.Contract.{IsExperienceStore}
use pokemon_rs.Rl.Store.Memory.{stored, in_memory_store-IsExperienceStore}
use pokemon_rs.Rl.Store.Postgres.{Row, Database}
use pokemon_rs.Rl.Store.Postgres.Laws.{IsTable, table_view, postgres_rl_store-IsExperienceStore}
use pokemon_rs.AppState.{AppState, with_config, parse_api_keys}
use pokemon_rs.AppState.Csv.{join_on_nonempty, IsKey, join_on, parse_api_keys-join_on}
use pokemon_rs.Server.Middleware.{unauthorized_response}
use pokemon_rs.Server.Router.{Request, dispatch, app}
use pokemon_rs.Server.Guards.{Authenticated, key_of, limited, app-Authenticated, app-unauthorized}
use pokemon_rs.Server.Answers.{serves}
use pokemon_rs.Server.Throttle.{serves-api_keys}
use pokemon_rs.Cli.{Serve, RlStore, postgres, in_memory, Pool, behind, dyn_store, open_store, main}

-- What the store behind the pointer holds.
abbrev pub held :
    {F J T D : Type 0}
    → (D → List (Row F J T))
    → RlStore F J T D
    → Uuid
    → Multiset (Experience F J T)
held rows (postgres p) id = table_view rows p id
held rows (in_memory m) id = stored m id

module _ {F J T D : Type 0} ⦃d : DateTime T⦄ where
  -- If times are totally ordered and the database executes its statements as documented: whichever
  -- store the process has opened, it keeps the contract of the trait. It refuses the nil session;
  -- an insertion that fails changes nothing, and one that succeeds adds the experience to its
  -- session and nothing else; listing changes nothing, and gives what is held for the session, the
  -- earlier before the later, those without a time last and in the order of their insertion.
  pub dyn_store-IsExperienceStore :
      (db : Database F J T D) (rows : D → List (Row F J T))
      → IsChronological T
      → IsTable db rows
      → (s : RlStore F J T D) → IsExperienceStore (dyn_store db) (held rows) s
  dyn_store-IsExperienceStore db rows laws table (postgres p) =
      let kept = postgres_rl_store-IsExperienceStore db rows table p in
      record {
        insert_nil = λ e nil. ap (behind postgres) (kept.insert_nil e nil);
        insert_failed = kept.insert_failed;
        insert_stored = kept.insert_stored;
        view-list_by_session = kept.view-list_by_session;
        list_by_session_lem = kept.list_by_session_lem;
      }
  dyn_store-IsExperienceStore db rows laws table (in_memory m) =
      let kept = in_memory_store-IsExperienceStore laws m in
      record {
        insert_nil = λ e nil. ap (behind in_memory) (kept.insert_nil e nil);
        insert_failed = kept.insert_failed;
        insert_stored = kept.insert_stored;
        view-list_by_session = kept.view-list_by_session;
        list_by_session_lem = kept.list_by_session_lem;
      }

-- What `main` builds, if it does not end in an error.
started :
    {F J T D Addr : Type 0} ⦃f : F64 F⦄ (parsers : Parsers F Addr) (pool : Pool D) (env : Env)
    (args : Serve Addr) (addr : Addr) (s : AppState F J T (RlStore F J T D))
    → main parsers pool env args ≡ ok (addr, s)
    → s.api_keys ≡ parse_api_keys (nonempty (env (codes "API_KEYS")))
unfolding main from_env with_config
started {F} {J} {T} parsers pool env args addr s h =
    elim (Result-cases (open_store {F = F} {J = J} {T = T} pool (database_url_of env))) [
      | inl (rl_store, opened) ↦ ground (arith, opened)
      | inr (e, failed) ↦ ground (arith, failed)
    ]

configured :
    (env : Env) (k : Text) (ks : List Text)
    → env (codes "API_KEYS") ≡ some (join_on b',' (k ∷ ks))
    → All IsKey (k ∷ ks)
    → parse_api_keys (nonempty (env (codes "API_KEYS"))) ≡ k ∷ ks
configured env k ks set keys =
    rw (set, join_on_nonempty k ks keys.0.0) (parse_api_keys-join_on (k ∷ ks) keys)

-- A header carries one token.
same_token : (h t u : Text) → IsToken t → Carries h t → IsToken u → Carries h u → u ≡ t
same_token h t u token carries token' carries' = some-injective _ _ (
    sym ((parse_bearer_token_iff h u).1 (token', carries'))
    ∙ (parse_bearer_token_iff h t).1 (token, carries))

listed_of :
    (auth : Option Text) (h t k : Text) (keys ks : List Text) (role : Role)
    → keys ≡ k ∷ ks
    → auth ≡ some h
    → IsToken t
    → Carries h t
    → Authenticated auth keys role
    → Memᴰ t (k ∷ ks)
listed_of auth h t k keys ks role known carried token carries
      (h', u, e, token', carries', (some_, accepted, role_)) =
    let same : h' ≡ h = some-injective _ _ (sym e ∙ carried) in
    let one : u ≡ t =
      same_token h t u token carries token' (subst (λ x. Carries x u) same carries') in
    elim accepted [
      | inl empty ↦ let clash = sym known ∙ empty in cc
      | inr mem ↦ subst (λ x. Memᴰ x (k ∷ ks)) one (subst (Memᴰ u) known mem)
    ]

module _ {F J T D Addr : Type 0} ⦃f : F64 F⦄ ⦃j : Json J⦄ ⦃w : Serialize F J⦄ ⦃d : DateTime T⦄
    (db : Database F J T D) (show : Uuid → Text) where
  -- If `API_KEYS` holds keys that are joined by commas, at least one, each of them not empty,
  -- without commas and without white space at its ends, and the process has started, then after
  -- any requests, and for a request that carries a token: if the token is one of the keys, it is
  -- accepted in the role that its prefix says, and the request is answered by its route's handler,
  -- or 429 with a time to wait, of a second at least, if the limiter does not allow it; if the
  -- token is none of the keys, the request is answered 401 without any effect.
  pub main-app :
      (parsers : Parsers F Addr) (pool : Pool D) (env : Env) (args : Serve Addr) (addr : Addr)
      (s : AppState F J T (RlStore F J T D)) (k : Text) (ks : List Text) (qs : List (Request F T))
      (q : Request F T) (h t : Text)
      → main parsers pool env args ≡ ok (addr, s)
      → env (codes "API_KEYS") ≡ some (join_on b',' (k ∷ ks))
      → All IsKey (k ∷ ks)
      → q.auth ≡ some h
      → IsToken t
      → Carries h t
      → let s' = serves ⦃r = dyn_store db⦄ show qs s in
        let (limiter, allowed) = check (key_of q.auth) q.now s'.rate_limiter in
        let s'' : AppState F J T (RlStore F J T D) = record s' { rate_limiter = limiter } in
        let seconds = retry_after_seconds (key_of q.auth) q.ask limiter in
        (Memᴰ t (k ∷ ks)
          → (validate_token t s'.api_keys ≡ ok (role_of t))
            × (allowed ≡ true
                → app ⦃r = dyn_store db⦄ show q s' ≡ dispatch ⦃r = dyn_store db⦄ show q q.route s'')
            × (allowed ≡ false
                → (app ⦃r = dyn_store db⦄ show q s' ≡ (s'', some (limited seconds)))
                  × (1 ≤ seconds)))
        × (¬ Memᴰ t (k ∷ ks)
            → app ⦃r = dyn_store db⦄ show q s'
              ≡ (s', some (unauthorized_response (codes "Missing or invalid Authorization"))))
  main-app parsers pool env args addr s k ks qs q h t begun set keys carried token carries =
      let s' = serves ⦃r = dyn_store db⦄ show qs s in
      let known : s'.api_keys ≡ k ∷ ks =
        serves-api_keys ⦃r = dyn_store db⦄ show qs s
        ∙ started parsers pool env args addr s begun
        ∙ configured env k ks set keys in
      (
        λ listed.
            let accepted : Accepted t s'.api_keys (role_of t) =
              rw known ((λ e. token.0 e), inr listed, refl) in
            let who : Authenticated q.auth s'.api_keys (role_of t) =
              (h, t, carried, token, carries, accepted) in
            let (served, refused) =
              app-Authenticated ⦃r = dyn_store db⦄ show q s' (role_of t) who in
            ((validate_token_iff t s'.api_keys (role_of t)).1 accepted, served, refused),
        λ unlisted. app-unauthorized ⦃r = dyn_store db⦄ show q s' (λ role who.
            unlisted (listed_of q.auth h t k s'.api_keys ks role known carried token carries who)),
      )
