-- ===== src/Server/Accounts.antt =====
-- Sessions and wallets through the handlers of cli/src/server.rs, and the statuses of an action.
use pokemon_rs.Prelude.{
  ℕ, ◌+◌, ◌%◌, ◌^◌, ◌≡◌, refl, inl, inr, true, Option, none, some, arith, if◌then◌else◌,
  Option-cases, Text, ◌==◌, ok, err, nat_eq,
}
use pokemon_rs.Prelude.Map.{get, get-insert, get-insert_self}
use pokemon_rs.StateEngine.{GameState, initialized, transition}
use pokemon_rs.StateEngine.Graph.{transition-cases}
use pokemon_rs.Float.{F64, nought}
use pokemon_rs.Rl.Store.{ExperienceStore}
use pokemon_rs.Json.{Json, Serialize, DateTime}
use pokemon_rs.Api.{
  Uuid, Session, Wallet, CreateSessionRequest, CreateWalletRequest, PlayActionRequest,
}
use pokemon_rs.Persistence.{session_create, session_get_by_id, wallet_create}
use pokemon_rs.Manager
use pokemon_rs.Manager.{default_metrics}
use pokemon_rs.Metrics
use pokemon_rs.AppState.{AppState}
use pokemon_rs.Auth.{Role}
use pokemon_rs.RateLimit.{check}
use pokemon_rs.Server.{
  unwrap_or, record_play, create_session_handler, get_session_handler, create_wallet_handler,
  next_state,
}
use pokemon_rs.Server.Http.{into_response}
use pokemon_rs.Server.Play.{handler_missing, handler_refused, handler_granted}
use pokemon_rs.Server.Router.{Request, play_action, dispatch, app}
use pokemon_rs.Server.Guards.{Authenticated, key_of, status_of, app-Authenticated}

module _ {F J T S : Type 0} ⦃f : F64 F⦄ where
  -- A created session is answered with its identifier and counted, modulo 2^64; a later request for
  -- it finds it in the state `initialized`; no other part of the state changes.
  pub get_session_handler-create_session_handler :
      (id : Uuid) (req : CreateSessionRequest F) (s : AppState F J T S)
      → let (s', r) = create_session_handler id req s in
        (r ≡ ok (record { session_id = id; state = initialized }))
        × ((get_session_handler id s').1
            ≡ ok (record {
              session_id = id;
              game_id = req.game_id;
              state = initialized;
              metrics = default_metrics;
            }))
        × (s'.metrics.sessions_created ≡ (s.metrics.sessions_created + 1) % 2 ^ 64)
        × (s' ≡ record s { session_repo = s'.session_repo; metrics = s'.metrics })
  unfolding create_session_handler get_session_handler Manager.create_session Manager.get_session
      session_create session_get_by_id Metrics.record_session_created
  get_session_handler-create_session_handler id req s =
      let x : Session F = record {
        session_id = id;
        game_id = req.game_id;
        state = initialized;
        metrics = default_metrics;
      } in
      (refl, ground (arith, get-insert_self id x s.session_repo), refl, refl)

  -- A created wallet has the requested balance and limit and nothing spent. It is stored under the
  -- requested identifier or the drawn one, also if a wallet is stored there already, which is then
  -- lost; nothing else changes.
  pub create_wallet_handler_lem :
      (fresh : Uuid) (req : CreateWalletRequest F) (s : AppState F J T S)
      → let (s', r) = create_wallet_handler fresh req s in
        let w : Wallet F = record {
          wallet_id = unwrap_or fresh req.wallet_id;
          balance = req.balance;
          daily_limit = req.daily_limit;
          daily_spent = record { amount = nought; currency = req.balance.currency };
        } in
        (r ≡ ok w)
        × ((k : Uuid)
            → get k s'.wallet_repo ≡ (if w.wallet_id == k then some w else get k s.wallet_repo))
        × (s' ≡ record s { wallet_repo = s'.wallet_repo })
  unfolding create_wallet_handler wallet_create
  create_wallet_handler_lem fresh req s =
      let w : Wallet F = record {
        wallet_id = unwrap_or fresh req.wallet_id;
        balance = req.balance;
        daily_limit = req.daily_limit;
        daily_spent = record { amount = nought; currency = req.balance.currency };
      } in
      (refl, λ k. get-insert w.wallet_id k w s.wallet_repo, refl)

-- The status that an action request on the stored session, if there is one, should have.
abbrev pub play_status : {F : Type 0} → GameState → Option (Session F) → ℕ
play_status to none = 404
play_status to (some x) = elim (transition x.state to) [ ok _ ↦ 200 | err _ ↦ 409 ]

module _ {F J T S : Type 0} ⦃f : F64 F⦄ ⦃j : Json J⦄ ⦃w : Serialize F J⦄ ⦃d : DateTime T⦄
    ⦃r : ExperienceStore F J T S⦄ (show : Uuid → Text) (q : Request F T) where
  pub play_action_status :
      (id : Uuid) (req : PlayActionRequest F) (s : AppState F J T S)
      → status_of (dispatch show q (play_action id req) s).1
        ≡ some (play_status (next_state req.action.action_type) (get id s.session_repo))
  unfolding into_response record_play
  play_action_status id req s =
      let to = next_state req.action.action_type in
      elim (Option-cases (get id s.session_repo)) [
        | inl missing ↦ rw (handler_missing q.draw id req s missing, missing) refl
        | inr (x, found) ↦ elim (transition-cases x.state to) [
          | inl granted ↦
              rw (handler_granted q.draw id req s x found granted, found, granted, play_status) refl
          | inr refused ↦
              rw (handler_refused q.draw id req s x found refused, found, refused, play_status) refl
        ]
      ]

  -- An action request that carries an accepted token and that the limiter allows is answered 404 if
  -- the session is missing, 409 if the state machine refuses the action's state, and else 200.
  app-play_action :
      (s : AppState F J T S) (id : Uuid) (req : PlayActionRequest F) (role : Role)
      → q.route ≡ play_action id req
      → Authenticated q.auth s.api_keys role
      → (check (key_of q.auth) q.now s.rate_limiter).1 ≡ true
      → status_of (app show q s).1
        ≡ some (play_status (next_state req.action.action_type) (get id s.session_repo))
  app-play_action s id req role route who yes_ =
      let s' : AppState F J T S = record s {
        rate_limiter = (check (key_of q.auth) q.now s.rate_limiter).0;
      } in
      let served : app show q s ≡ dispatch show q (play_action id req) s' =
        ground (arith, (app-Authenticated show q s role who).0 yes_, route) in
      rw served (play_action_status id req s')
