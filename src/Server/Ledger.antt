-- ===== src/Server/Ledger.antt =====
-- The service of cli/src/server.rs seen from outside: what it holds for each identifier, with the
-- order of events and experiences forgotten.
pub mod Bags
pub mod Outcomes
pub mod Replies
pub mod Handlers
pub mod Runs
pub mod Refinement
use mathlib.Mathlib.Data.Multiset.Defs.{Multiset, of_list}
use mathlib.Mathlib.Data.Multiset.ZeroCons.{cons}
use pokemon_rs.Prelude.{
  ℕ, ◌+◌, ◌%◌, ◌^◌, Option, none, some, if◌then◌else◌, ◌==◌, Result, ok, err, nat_eq,
}
use pokemon_rs.Prelude.Map.{get}
use pokemon_rs.StateEngine.{GameState, StateError, initialized, playing, completed, transition}
use pokemon_rs.Fingerprinter.{GameFingerprint, fingerprint_get}
use pokemon_rs.Metrics.{SessionMetrics}
use pokemon_rs.Float.{F64, nought}
use pokemon_rs.Json.{Json, Serialize, DateTime}
use pokemon_rs.Api.{
  Uuid, nil_uuid, Session, Wallet, CreateSessionRequest, CreateWalletRequest, PlayActionRequest,
  WalletOperationRequest,
}
use pokemon_rs.Domain.{AppConfig, DomainError}
use pokemon_rs.Persistence.{operate}
use pokemon_rs.Manager.{default_metrics}
use pokemon_rs.Events
use pokemon_rs.Events.{GameplayEvent}
use pokemon_rs.Rl.Store
use pokemon_rs.Rl.Store.{Experience, InMemoryStore}
use pokemon_rs.AppState.{AppState}
use pokemon_rs.Server.{Draw, unwrap_or, next_state, play_event, play_experience, action_reward}
use pokemon_rs.Server.Router.{
  Route, create_session, play_action, create_wallet, wallet_operation, Request,
}

-- The abstract state.
pub record Ledger (F J T : Type 0) : Type 0 where
  pub sessions : Uuid → Option (Session F)
  pub wallets : Uuid → Option (Wallet F)
  pub events : Uuid → Multiset (GameplayEvent F J T)
  pub experiences : Uuid → Multiset (Experience F J T)
  pub fingerprints : Uuid → Option (GameFingerprint J)
  pub counters : SessionMetrics

-- The function that differs from `m` at `k` alone.
abbrev pub set {ℓ} : {A : Type ℓ} → Uuid → A → (Uuid → A) → Uuid → A
set k a m i = if k == i then a else m i

-- What the service holds.
abbrev pub ledger :
    {F J T : Type 0} ⦃d : DateTime T⦄ → AppState F J T (InMemoryStore F J T) → Ledger F J T
ledger s = record {
  sessions = λ k. get k s.session_repo;
  wallets = λ k. get k s.wallet_repo;
  events = λ k. of_list (Events.list_by_session k s.event_store);
  experiences = λ k. of_list (Store.list_by_session k s.rl_store);
  fingerprints = λ k. fingerprint_get k s.fingerprint_store;
  counters = s.metrics;
}

-- One more on a 64-bit counter.
abbrev pub next_count : ℕ → ℕ
next_count n = (n + 1) % 2 ^ 64

-- The counter of the state that an action leads to.
abbrev pub count_state : GameState → SessionMetrics → SessionMetrics
count_state playing m = record m { sessions_playing = next_count m.sessions_playing }
count_state completed m = record m { sessions_completed = next_count m.sessions_completed }
count_state _ m = m

module _ {F J T : Type 0} ⦃f : F64 F⦄ where
  -- What the routes are meant to do.
  abbrev pub create_session_spec : Uuid → CreateSessionRequest F → Ledger F J T → Ledger F J T
  create_session_spec id req l = record l {
    sessions =
        set id
          (some (record {
            session_id = id;
            game_id = req.game_id;
            state = initialized;
            metrics = default_metrics;
          }))
          l.sessions;
    counters = record l.counters { sessions_created = next_count l.counters.sessions_created };
  }

  abbrev pub create_wallet_spec : Uuid → CreateWalletRequest F → Ledger F J T → Ledger F J T
  create_wallet_spec fresh req l = record l {
    wallets =
        set (unwrap_or fresh req.wallet_id)
          (some (record {
            wallet_id = unwrap_or fresh req.wallet_id;
            balance = req.balance;
            daily_limit = req.daily_limit;
            daily_spent = record { amount = nought; currency = req.balance.currency };
          }))
          l.wallets;
  }

  -- An operation that is granted with the new wallet, or refused.
  abbrev pub settle : Uuid → Result DomainError (Wallet F) → Ledger F J T → Ledger F J T
  settle id (err e) l = l
  settle id (ok w) l = record l { wallets = set id (some w) l.wallets }

  abbrev pub operate_on :
      Uuid → WalletOperationRequest F → Option (Wallet F) → Ledger F J T → Ledger F J T
  operate_on id req none l = l
  operate_on id req (some w) l = settle id (operate req.operation req.amount w) l

module _ {F J T : Type 0} ⦃f : F64 F⦄ ⦃j : Json J⦄ ⦃w : Serialize F J⦄ where
  -- A played action: the session in its new state, one event and, but for the nil session, one
  -- experience.
  abbrev pub play :
      AppConfig F
      → Draw T
      → Uuid
      → PlayActionRequest F
      → Session F
      → GameState
      → Ledger F J T
      → Ledger F J T
  play config draw id req x to l =
      let reward = action_reward config req in
      let event = play_event draw id req reward in
      let exp = play_experience draw id req reward x.state to in
      record l {
        sessions = set id (some (record x { state = to })) l.sessions;
        events = set id (cons event (l.events id)) l.events;
        experiences =
            set id (if id == nil_uuid then l.experiences id else cons exp (l.experiences id))
              l.experiences;
        counters = count_state to l.counters;
      }

  abbrev pub play_if_ok :
      AppConfig F
      → Draw T
      → Uuid
      → PlayActionRequest F
      → Session F
      → Result StateError GameState
      → Ledger F J T
      → Ledger F J T
  play_if_ok config draw id req x (err e) l = l
  play_if_ok config draw id req x (ok to) l = play config draw id req x to l

  abbrev pub play_on :
      AppConfig F
      → Draw T
      → Uuid
      → PlayActionRequest F
      → Option (Session F)
      → Ledger F J T
      → Ledger F J T
  play_on config draw id req none l = l
  play_on config draw id req (some x) l =
      play_if_ok config draw id req x (transition x.state (next_state req.action.action_type)) l

  -- What a request that passes the layers does; all other routes only read.
  abbrev pub route_spec : AppConfig F → Request F T → Route F → Ledger F J T → Ledger F J T
  route_spec config q (create_session req) l = create_session_spec q.fresh req l
  route_spec config q (play_action id req) l = play_on config q.draw id req (l.sessions id) l
  route_spec config q (create_wallet req) l = create_wallet_spec q.fresh req l
  route_spec config q (wallet_operation id req) l = operate_on id req (l.wallets id) l
  route_spec config q _ l = l
