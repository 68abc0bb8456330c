-- ===== src/Server/Ledger/Refinement.antt =====
-- The answers of the service of cli/src/server.rs, after any requests, against the ledger.
use mathlib.Core.Path.{subst}
use pokemon_rs.Prelude.{◌≡◌, sym, ap, true, List, Text}
use pokemon_rs.Float.{F64}
use pokemon_rs.Json.{Json, Serialize, IsSerde, DateTime, IsChronological}
use pokemon_rs.Api.{Uuid}
use pokemon_rs.Auth.{Role}
use pokemon_rs.RateLimit.{check}
use pokemon_rs.Rl.Store.{InMemoryStore, in_memory_store}
use pokemon_rs.AppState.{AppState}
use pokemon_rs.Server.Router.{Request, app}
use pokemon_rs.Server.Guards.{Authenticated, key_of, app-Authenticated}
use pokemon_rs.Server.Answers.{serves}
use pokemon_rs.Server.Throttle.{serves-api_keys}
use pokemon_rs.Server.Ledger.{ledger}
use pokemon_rs.Server.Ledger.Outcomes.{Answered}
use pokemon_rs.Server.Ledger.Replies.{IsSmall, dispatch-Answered}
use pokemon_rs.Server.Ledger.Runs.{specs, admitted_of, serves-ledger}

module _ {F J T : Type 0} ⦃f : F64 F⦄ ⦃j : Json J⦄ ⦃w : Serialize F J⦄ ⦃d : DateTime T⦄
    (show : Uuid → Text) where
  app-Answered :
      (laws : IsChronological T) (q : Request F T) (s : AppState F J T (InMemoryStore F J T))
      (role : Role)
      → IsSmall s.rl_store
      → Authenticated q.auth s.api_keys role
      → (check (key_of q.auth) q.now s.rate_limiter).1 ≡ true
      → Answered show q role q.route (ledger s) (app show q s).1
  app-Answered laws q s role small who yes_ =
      let s' : AppState F J T (InMemoryStore F J T) = record s {
        rate_limiter = (check (key_of q.auth) q.now s.rate_limiter).0;
      } in
      let served = (app-Authenticated show q s role who).0 yes_ in
      subst (Answered show q role q.route (ledger s)) (sym (ap (λ p. p.1) served))
        (dispatch-Answered show q s' laws role q.route small who)

  -- Over the experience store in memory, if actions are serialised with their type and times are
  -- totally ordered: after any requests, the answer to a request that carries an accepted token,
  -- that the limiter allows, and before which no session has 2^32 experiences is one that the
  -- ledger allows in the state to which the abstract routes of the requests that were admitted have
  -- brought it: a created session or wallet; the session, the wallet, the fingerprint or the error
  -- that the ledger determines; the session's events in the order of their seconds; a page of its
  -- experiences in the order of their times; or, for an administrator, the counters.
  pub serves-Answered :
      (laws : IsSerde F J) (times : IsChronological T) (qs : List (Request F T)) (q : Request F T)
      (s : AppState F J T (InMemoryStore F J T)) (role : Role)
      → IsSmall (serves show qs s).rl_store
      → Authenticated q.auth s.api_keys role
      → (check (key_of q.auth) q.now (serves show qs s).rate_limiter).1 ≡ true
      → Answered show q role q.route
          (specs s.config (admitted_of show qs s) (ledger s))
          (app show q (serves show qs s)).1
  serves-Answered laws times qs q s role small who yes_ =
      let s' = serves show qs s in
      subst (λ l. Answered show q role q.route l (app show q s').1) (serves-ledger show laws qs s)
        (app-Answered times q s' role small
          (subst (λ keys. Authenticated q.auth keys role) (sym (serves-api_keys show qs s)) who)
          yes_)
