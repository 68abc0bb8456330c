-- ===== src/Server/Tasks/Unserved.antt =====
-- What a step of a concurrent request does to the wallets (cli/src/server.rs).
use pokemon_rs.Prelude.{
  ℕ, ◌≡◌, refl, sym, ap, ◌∙◌, ◌⊎◌, inl, inr, Bool, true, false, ◌||◌, Option, none, some, List, [],
  ◌∷◌, ◌++◌, arith, nat_beq, if◌then◌else◌, Option-cases, Text, Result, ok, err, nat_eq,
}
use pokemon_rs.Prelude.Map.{get}
use pokemon_rs.Float.{F64}
use pokemon_rs.Json.{Json, Serialize, DateTime}
use pokemon_rs.Api.{Uuid, PlayActionRequest}
use pokemon_rs.Auth.{Role, user, admin, AuthError}
use pokemon_rs.RateLimit.{check}
use pokemon_rs.Persistence.{
  WalletStore, apply_operation, wallet_create, session_get_by_id, session_create,
}
use pokemon_rs.Manager
use pokemon_rs.Rl.Export.{ExportResponse}
use pokemon_rs.Rl.Store.{ExperienceStore}
use pokemon_rs.AppState.{AppState}
use pokemon_rs.Server.{
  create_wallet_handler, wallet_operation_handler, get_session_handler, game_fingerprint_handler,
  rl_export_handler,
}
use pokemon_rs.Server.Guards.{key_of}
use pokemon_rs.Server.Race.{Stage, answered, called, advance_call}
use pokemon_rs.Server.Http.{Response, respond_with, into_response}
use pokemon_rs.Domain.{DomainError, not_found}
use pokemon_rs.Server.Router.{
  Route, create_session, get_session, play_action, session_events, create_wallet, wallet_operation,
  game_fingerprint, rl_export, get_metrics, Request, events_found, session_found, wallet_created,
  wallet_operated, fingerprint_found, action_played, exported, Payload, exported_response,
}
use pokemon_rs.Server.Spending.{new_wallet}
use pokemon_rs.Server.Tasks.Wallets.{advance_call-wallet_repo}
use pokemon_rs.Server.Tasks.{
  Progress, arrived, authorised, admitted, limited, created, acting, listing, read_created,
  read_completed, responded, Task, call_of, begin, advance_task, after_stage, after_role,
  after_token, role_of,
}

module _ {F : Type 0} ⦃f : F64 F⦄ where
  -- What a request does to the wallets.
  abbrev pub wallets_after : Uuid → Route F → WalletStore F → WalletStore F
  wallets_after fresh (create_wallet req) m = (wallet_create (new_wallet fresh req) m).0
  wallets_after fresh (wallet_operation id req) m =
      (apply_operation id req.operation req.amount m).0
  wallets_after fresh _ m = m

module _ {F T : Type 0} ⦃f : F64 F⦄ where
  -- What requests do one after the other.
  abbrev pub in_turn : List (Request F T) → WalletStore F → WalletStore F
  in_turn [] m = m
  in_turn (q ∷ qs) m = in_turn qs (wallets_after q.fresh q.route m)

  pub in_turn-append :
      (ps qs : List (Request F T)) (m : WalletStore F)
      → in_turn (ps ++ qs) m ≡ in_turn qs (in_turn ps m)
  in_turn-append [] qs m = refl
  in_turn-append (p ∷ ps) qs m = in_turn-append ps qs (wallets_after p.fresh p.route m)

-- The answers of the two layers: 401, or a time to wait.
abbrev delays : Option ℕ → Bool
delays none = false
delays (some n) = true

abbrev pub turned_away : {A : Type 0} → Option (Response A) → Bool
turned_away none = false
turned_away (some a) = nat_beq a.status 401 || delays a.retry_after

not_turned_away :
    {A B : Type 0} (show : Uuid → Text) (status : ℕ) (wrap : A → B) (out : Result DomainError A)
    → nat_beq status 401 ≡ false
    → turned_away (some (respond_with show status wrap out)) ≡ false
unfolding into_response
not_turned_away show status wrap (ok a) h = ground (arith, h)
not_turned_away show status wrap (err (DomainError.not_found id)) h = refl
not_turned_away show status wrap (err (DomainError.invalid_transition x)) h = refl
not_turned_away show status wrap (err DomainError.wallet_limit_exceeded) h = refl
not_turned_away show status wrap (err (DomainError.invalid_input x)) h = refl
not_turned_away show status wrap (err DomainError.rate_limit_exceeded) h = refl
not_turned_away show status wrap (err (DomainError.internal x)) h = refl

module _ {F J T : Type 0} where
  -- The request, while no handler has begun to serve it or if a layer has turned it away.
  abbrev pub unserved : Progress F J T → Request F T → List (Request F T)
  unserved arrived q = q ∷ []
  unserved authorised q = q ∷ []
  unserved admitted q = q ∷ []
  unserved limited q = q ∷ []
  unserved (responded a) q = if turned_away a then q ∷ [] else []
  unserved _ q = []

  abbrev pub all_unserved : List (Task F J T) → List (Request F T)
  all_unserved [] = []
  all_unserved (t ∷ ts) = unserved t.progress t.request ++ all_unserved ts

module _ (F J T : Type 0) (q : Request F T) where
  respond_with-unserved :
      {A : Type 0} (show : Uuid → Text) (status : ℕ) (wrap : A → Payload F J T)
      (out : Result DomainError A)
      → nat_beq status 401 ≡ false
      → unserved (responded (some (respond_with show status wrap out))) q ≡ []
  respond_with-unserved show status wrap out h = rw (not_turned_away show status wrap out h) refl

  exported-unserved :
      {S : Type 0} (show : Uuid → Text) (s : AppState F J T S)
      (out : Option (Result DomainError (ExportResponse F J T)))
      → unserved (responded (exported_response show (s, out)).1) q ≡ []
  exported-unserved show s none = refl
  exported-unserved show s (some out) = respond_with-unserved show 200 exported out refl

  after_stage-unserved :
      (show : Uuid → Text) (id : Uuid) (req : PlayActionRequest F) (st : Stage F)
      → unserved {J = J} (after_stage show id req st) q ≡ []
  after_stage-unserved show id req (answered a) =
      respond_with-unserved show 200 action_played a refl
  after_stage-unserved show id req _ = refl

  after_token-unserved :
      (o : Option (Result AuthError Role)) → q ∷ [] ≡ unserved {J = J} (after_token o) q
  after_token-unserved none = refl
  after_token-unserved (some (err e)) = refl
  after_token-unserved (some (ok role)) = refl

  check-unserved : (b : Bool) → q ∷ [] ≡ unserved {J = J} (if b then admitted else limited) q
  check-unserved true = refl
  check-unserved false = refl

  -- The metrics handler looks at the token again.
  after_role-unserved :
      (n : ℕ) (o : Option (Result AuthError Role))
      → (unserved {J = J} (after_role n o) q ≡ []) ⊎ (unserved {J = J} (after_role n o) q ≡ q ∷ [])
  after_role-unserved n none = inr refl
  after_role-unserved n (some (err e)) = inr refl
  after_role-unserved n (some (ok user)) = inl refl
  after_role-unserved n (some (ok admin)) = inl refl

module _ {F J T S : Type 0} ⦃f : F64 F⦄ ⦃j : Json J⦄ ⦃w : Serialize F J⦄ ⦃d : DateTime T⦄
    ⦃r : ExperienceStore F J T S⦄ (show : Uuid → Text) where
  begin-wallets_after :
      (q : Request F T) (route : Route F) (s : AppState F J T S)
      → (begin show q route s).0.wallet_repo ≡ wallets_after q.fresh route s.wallet_repo
  unfolding begin Manager.create_session session_create Manager.get_session session_get_by_id
      create_wallet_handler wallet_operation_handler get_session_handler game_fingerprint_handler
      rl_export_handler wallet_create
  begin-wallets_after q (create_session req) s = refl
  begin-wallets_after q (play_action id req) s =
      advance_call-wallet_repo called (call_of q id req called) s
  begin-wallets_after q (session_events id) s = ground arith
  begin-wallets_after q get_metrics s = refl
  begin-wallets_after q (get_session id) s = ground arith
  begin-wallets_after q (create_wallet req) s = refl
  begin-wallets_after q (wallet_operation id req) s = ground arith
  begin-wallets_after q (game_fingerprint id) s = ground arith
  begin-wallets_after q (rl_export query) s = ground arith

  -- A handler serves its request, but for the metrics that it may refuse.
  begin-unserved :
      (q : Request F T) (route : Route F) (s : AppState F J T S)
      → let p = (begin show q route s).1 in
        (unserved p q ≡ [])
        ⊎ (unserved p q ≡ q ∷ []) × ((m : WalletStore F) → wallets_after q.fresh route m ≡ m)
  unfolding begin Manager.create_session session_create Manager.get_session session_get_by_id
  begin-unserved q (create_session req) s = inl refl
  begin-unserved q (play_action id req) s = inl (
      after_stage-unserved F J T q show id req
        (advance_call called (call_of q id req called) s).1.stage)
  begin-unserved q (session_events id) s = elim (Option-cases (get id s.session_repo)) [
    | inl missing ↦
        rw missing
          (inl (respond_with-unserved F J T q show 200 events_found (err (not_found id)) refl))
    | inr (x, found) ↦ rw found (inl refl)
  ]
  begin-unserved q get_metrics s =
      elim (after_role-unserved F J T q s.metrics.sessions_created (role_of q.auth s)) [
        | inl e ↦ inl e
        | inr e ↦ inr (e, λ m. refl)
      ]
  begin-unserved q (get_session id) s =
      inl (respond_with-unserved F J T q show 200 session_found (get_session_handler id s).1 refl)
  begin-unserved q (create_wallet req) s = inl (
      respond_with-unserved F J T q show 201 wallet_created (create_wallet_handler q.fresh req s).1
        refl)
  begin-unserved q (wallet_operation id req) s = inl (
      respond_with-unserved F J T q show 200 wallet_operated (wallet_operation_handler id req s).1
        refl)
  begin-unserved q (game_fingerprint id) s = inl (
      respond_with-unserved F J T q show 200 fingerprint_found (game_fingerprint_handler id s).1
        refl)
  begin-unserved q (rl_export query) s =
      let (s', out) = rl_export_handler query s in inl (exported-unserved F J T q show s' out)

  -- A step serves its request, or leaves it unserved.
  pub advance_task-unserved :
      (p : Progress F J T) (q : Request F T) (s : AppState F J T S)
      → let (s', p') = advance_task show p q s in
        (served : List (Request F T)) × (unserved p q ≡ served ++ unserved p' q)
        × (s'.wallet_repo ≡ in_turn served s.wallet_repo)
  unfolding advance_task
  advance_task-unserved arrived q s = ([], after_token-unserved F J T q (role_of q.auth s), refl)
  advance_task-unserved authorised q s =
      ([], check-unserved F J T q (check (key_of q.auth) q.now s.rate_limiter).1, refl)
  advance_task-unserved admitted q s =
      let changed = begin-wallets_after q q.route s in
      elim (begin-unserved q q.route s) [
        | inl e ↦ (q ∷ [], ap (λ qs. q ∷ qs) (sym e), changed)
        | inr (e, idle_) ↦ ([], sym e, changed ∙ idle_ s.wallet_repo)
      ]
  advance_task-unserved (acting id req st) q s = (
    [],
    sym (
        after_stage-unserved F J T q show id req (advance_call st (call_of q id req st) s).1.stage),
    advance_call-wallet_repo st (call_of q id req st) s,
  )
  advance_task-unserved limited q s = ([], refl, refl)
  advance_task-unserved (created resp) q s = ([], refl, refl)
  advance_task-unserved (listing id) q s = ([], refl, refl)
  advance_task-unserved (read_created n) q s = ([], refl, refl)
  advance_task-unserved (read_completed n m) q s = ([], refl, refl)
  advance_task-unserved (responded a) q s = ([], refl, refl)
