-- ===== src/Server.antt =====
-- cli/src/server.rs: the handlers. Requests come deserialised, as axum's extractors deliver them.
-- What a handler draws (`Uuid::new_v4()`, `Utc::now()`) is an argument; logging is left out.
pub mod Http
pub mod Middleware
pub mod Router
pub mod Play
pub mod Recording
pub mod Race
pub mod Guards
pub mod Answers
pub mod Accounts
pub mod Throttle
pub mod Spending
pub mod Ledger
pub mod Statuses
pub mod Tasks
use pokemon_rs.Prelude.{
  ℕ, Option, none, some, [], ◌∷◌, map, Text, codes, Result, ok, err, map_err, ok_or, Method, ◌>>=◌,
  ◌>>◌, return, lift, nat_eq,
}
use pokemon_rs.Float.{F64, nought, clamp}
use pokemon_rs.Json.{Json, Serialize, DateTime}
use pokemon_rs.StateEngine.{
  GameState, idle, initialized, probing, playing, evaluating, completed, state_beq,
}
use pokemon_rs.Api.{
  Uuid, aud, Money, Wallet, SessionMetrics, Session, CreateSessionRequest, CreateSessionResponse,
  GameplayActionType, place_bet, spin, cash_out, GameplayAction, GameplayResult, PlayActionRequest,
  PlayActionResponse, WalletOperationRequest, WalletOperationResponse, CreateWalletRequest,
  SessionEventRecord, SessionEventsResponse, GameFingerprintResponse, not_found,
}
use pokemon_rs.Domain.{DomainError, AppConfig}
use pokemon_rs.Persistence.{
  SessionStore, WalletStore, session_store, apply_operation, wallet_create,
}
use pokemon_rs.Manager.{create_session, get_session, transition_session}
use pokemon_rs.Events
use pokemon_rs.Events.{GameplayEvent}
use pokemon_rs.Rl.Store
use pokemon_rs.Rl.Store.{Experience, StoreError, error_text, ExperienceStore}
use pokemon_rs.Rl.Reward.{compute_reward_safe}
use pokemon_rs.Rl.Export.{ExportParams, ExportResponse, export_experiences}
use pokemon_rs.Fingerprinter.{fingerprint_get}
use pokemon_rs.Metrics
use pokemon_rs.AppState.{AppState}

-- The state that an action asks for.
abbrev pub next_state : GameplayActionType → GameState
next_state place_bet = playing
next_state spin = evaluating
next_state cash_out = completed

-- `match session.state` on the lifecycle counters.
abbrev pub record_state : GameState → Metrics.SessionMetrics → Metrics.SessionMetrics
record_state playing m = Metrics.record_session_playing m
record_state completed m = Metrics.record_session_completed m
record_state _ m = m

-- The derived `Debug` of `GameState`.
abbrev pub state_name : GameState → Text
state_name idle = codes "Idle"
state_name initialized = codes "Initialized"
state_name probing = codes "Probing"
state_name playing = codes "Playing"
state_name evaluating = codes "Evaluating"
state_name completed = codes "Completed"

-- `x.as_ref().map(|m| m.amount).unwrap_or(0.0)`
abbrev pub amount_or_zero : {F : Type 0} ⦃f : F64 F⦄ → Option (Money F) → F
amount_or_zero none = nought
amount_or_zero (some m) = m.amount

abbrev pub unwrap_or {ℓ} : {A : Type ℓ} → A → Option A → A
unwrap_or d none = d
unwrap_or d (some a) = a

abbrev simulate : {F : Type 0} ⦃f : F64 F⦄ → GameplayActionType → GameplayResult F
simulate spin = record {
  payout = some (record { amount = nought; currency = aud });
  symbols = codes "A" ∷ codes "B" ∷ codes "C" ∷ [];
}
simulate _ = record { payout = none; symbols = [] }

unfoldable pub simulate_result : {F : Type 0} ⦃f : F64 F⦄ → GameplayAction F → GameplayResult F
simulate_result a = simulate a.action_type

-- What the play handler draws: two identifiers and the time.
pub record Draw (T : Type 0) : Type 0 where
  pub event_id : Uuid
  pub experience_id : Uuid
  pub now : T

-- A handler: `Err` is a domain error in its `HttpError` wrapper.
abbrev pub Handler : Type 0 → Type 0 → Type 0 → Type 0 → Type 0 → Type 0
Handler F J T S A = Method (AppState F J T S) DomainError A

module _ {F J T S A : Type 0} where
  -- A call of the session repository, and of the wallet repository.
  abbrev pub on_sessions : Method (SessionStore F) DomainError A → Handler F J T S A
  on_sessions m s = let (repo, r) = m s.session_repo in (record s { session_repo = repo }, r)

  abbrev pub on_wallets : Method (WalletStore F) DomainError A → Handler F J T S A
  on_wallets m s = let (repo, r) = m s.wallet_repo in (record s { wallet_repo = repo }, r)

module _ {F J T S : Type 0} ⦃f : F64 F⦄ where
  unfoldable pub create_session_handler :
      Uuid → CreateSessionRequest F → Handler F J T S CreateSessionResponse
  create_session_handler session_id req = do
    resp ← on_sessions (create_session session_store session_id req)
    λ s. (record s { metrics = Metrics.record_session_created s.metrics }, ok resp)

  unfoldable pub get_session_handler : Uuid → Handler F J T S (Session F)
  get_session_handler id = do
    found ← on_sessions (get_session session_store id)
    lift (ok_or (DomainError.not_found id) found)

  unfoldable pub wallet_operation_handler :
      Uuid → WalletOperationRequest F → Handler F J T S (WalletOperationResponse F)
  wallet_operation_handler id req = do
    wallet ← on_wallets (apply_operation id req.operation req.amount)
    return (record { wallet = wallet })

  -- `fresh` is the identifier that is drawn if the request names none.
  unfoldable pub create_wallet_handler : Uuid → CreateWalletRequest F → Handler F J T S (Wallet F)
  create_wallet_handler fresh req = do
    let wallet : Wallet F = record {
      wallet_id = unwrap_or fresh req.wallet_id;
      balance = req.balance;
      daily_limit = req.daily_limit;
      daily_spent = record { amount = nought; currency = req.balance.currency };
    }
    on_wallets (wallet_create wallet)
    return wallet

  unfoldable pub game_fingerprint_handler : Uuid → Handler F J T S (GameFingerprintResponse J)
  game_fingerprint_handler id s = elim (fingerprint_get id s.fingerprint_store) [
    | none ↦ (s, err (DomainError.not_found id))
    | some fp ↦ (
      s,
      ok (record {
        game_id = fp.game_id;
        rng_signature = fp.rng_signature;
        symbol_map = fp.symbol_map;
        statistical_profile = fp.statistical_profile;
      }),
    )
  ]

module _ {F : Type 0} ⦃f : F64 F⦄ where
  -- The reward of an action: the completion bonus and the configured weight play no part.
  unfoldable pub action_reward : AppConfig F → PlayActionRequest F → F
  action_reward config req =
      compute_reward_safe (amount_or_zero (simulate_result req.action).payout)
        (amount_or_zero req.action.amount) config.cost_per_spin
        (clamp (unwrap_or (f.decimal 5 1) req.human_likeness) nought (f.decimal 1 0))

module _ {F J T : Type 0} ⦃f : F64 F⦄ ⦃j : Json J⦄ ⦃w : Serialize F J⦄ where
  unfoldable pub play_event : Draw T → Uuid → PlayActionRequest F → F → GameplayEvent F J T
  play_event draw id req reward = record {
    event_id = draw.event_id;
    session_id = id;
    action = unwrap_or j.null (w.action_value req.action);
    result = unwrap_or j.null (w.result_value (simulate_result req.action));
    timestamp = some draw.now;
    reward = some reward;
  }

  unfoldable pub play_experience :
      Draw T → Uuid → PlayActionRequest F → F → GameState → GameState → Experience F J T
  play_experience draw id req reward prev_state new_state =
      Store.new draw.experience_id id (j.state_object (state_name prev_state))
        (unwrap_or j.null (w.action_value req.action)) reward
        (j.state_object (state_name new_state)) (state_beq new_state completed)

module _ {F J T S : Type 0} ⦃f : F64 F⦄ ⦃j : Json J⦄ ⦃w : Serialize F J⦄
    ⦃r : ExperienceStore F J T S⦄ where
  -- The handler after the transition: a failed write of the event or the experience is only logged.
  unfoldable pub record_play :
      Draw T
      → Uuid
      → PlayActionRequest F
      → GameState
      → Session F
      → Handler F J T S (PlayActionResponse F)
  record_play draw id req prev_state session s =
      let reward = action_reward s.config req in
      let event = play_event draw id req reward in
      let exp = play_experience draw id req reward prev_state session.state in
      (
        record s {
          metrics = record_state session.state s.metrics;
          event_store = (Events.insert event s.event_store).0;
          rl_store = (r.insert_experience exp s.rl_store).0;
        },
        ok (record { session = session; result = simulate_result req.action }),
      )

  unfoldable pub play_action_handler :
      Draw T → Uuid → PlayActionRequest F → Handler F J T S (PlayActionResponse F)
  play_action_handler draw id req = do
    found ← on_sessions (get_session session_store id)
    prev_session ← lift (ok_or (DomainError.not_found id) found)
    session ← on_sessions (transition_session session_store id (next_state req.action.action_type))
    record_play draw id req prev_session.state session

module _ {F J T : Type 0} ⦃d : DateTime T⦄ where
  abbrev pub event_record : GameplayEvent F J T → SessionEventRecord F J T
  event_record e = record {
    event_id = e.event_id;
    session_id = e.session_id;
    action = e.action;
    result = e.result;
    timestamp = e.timestamp;
    reward = e.reward;
  }

module _ {F J T S : Type 0} ⦃d : DateTime T⦄ where
  unfoldable pub session_events_handler : Uuid → Handler F J T S (SessionEventsResponse F J T)
  session_events_handler id = do
    found ← on_sessions (get_session session_store id)
    _ ← lift (ok_or (DomainError.not_found id) found)
    λ s. (s, ok (record { events = map event_record (Events.list_by_session id s.event_store) }))

-- The query of an export.
pub record RlExportQuery : Type 0 where
  pub session_id : Uuid
  pub limit : ℕ  -- u32
  pub offset : ℕ  -- u32

unfoldable pub default_limit : ℕ
default_limit = 100

-- The derived deserialisation, with `#[serde(default)]` for the fields that a query may lack.
unfoldable pub export_query : Uuid → Option ℕ → Option ℕ → RlExportQuery
unfolding default_limit
export_query id limit offset = record {
  session_id = id;
  limit = unwrap_or default_limit limit;
  offset = unwrap_or 0 offset;
}

-- `map_err(|e| HttpError::from(DomainError::Internal(e.to_string())))` on an export's result.
abbrev pub or_internal : {A : Type 0} → Option (Result StoreError A) → Option (Result DomainError A)
or_internal none = none
or_internal (some r) = some (map_err (λ e. DomainError.internal (error_text e)) r)

module _ {F J T S : Type 0} ⦃r : ExperienceStore F J T S⦄ where
  -- `none` is the panic of an export, which never happens (Rl/Export/Pages.antt).
  unfoldable pub rl_export_handler :
      RlExportQuery
      → AppState F J T S
      → AppState F J T S × Option (Result DomainError (ExportResponse F J T))
  rl_export_handler q s =
      let params : ExportParams = record {
        session_id = q.session_id;
        limit = q.limit;
        offset = q.offset;
      } in
      let (rl_store, out) = export_experiences r params s.rl_store in
      (record s { rl_store = rl_store }, or_internal out)
