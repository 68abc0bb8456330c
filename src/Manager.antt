-- ===== src/Manager.antt =====
-- controller/src/game_session_manager/mod.rs: the session manager, over any session repository.
-- `Uuid::new_v4()` is an argument; logging is left out.
pub mod Laws
pub mod Histories
pub mod Race
pub mod Schedules
pub mod Interleavings
pub mod Termination
use pokemon_rs.Prelude.{Option, map_err, ok_or, Method, ◌>>=◌, ◌>>◌, return, lift}
use pokemon_rs.Float.{F64}
use pokemon_rs.StateEngine.{GameState, StateError, transition, initialized}
use pokemon_rs.Api.{
  Uuid, SessionId, Session, SessionMetrics, CreateSessionRequest, CreateSessionResponse,
}
use pokemon_rs.Domain.{DomainError, SessionRepository, not_found, invalid_transition}

-- `SessionMetrics::default()`
unfoldable pub default_metrics : {F : Type 0} ⦃f : F64 F⦄ → SessionMetrics F
default_metrics ⦃f⦄ = record { total_spins = 0; total_payout = f.decimal 0 0 }

-- The `map_err` of `transition_session`.
abbrev pub domain_error : SessionId → StateError → DomainError
domain_error id (StateError.invalid_transition from to) = invalid_transition from
domain_error id StateError.not_found = not_found id

module _ {F S : Type 0} (repo : SessionRepository F S) where
  unfoldable pub create_session :
      ⦃f : F64 F⦄ → Uuid → CreateSessionRequest F → Method S DomainError CreateSessionResponse
  create_session session_id req = do
    repo.create (record {
      session_id = session_id;
      game_id = req.game_id;
      state = initialized;
      metrics = default_metrics;
    })
    return (record { session_id = session_id; state = initialized })

  unfoldable pub get_session : SessionId → Method S DomainError (Option (Session F))
  get_session id = repo.get_by_id id

  -- The part of `transition_session` up to the write: it holds the lock for the read alone.
  unfoldable pub decide_transition : SessionId → GameState → Method S DomainError GameState
  decide_transition id to_state = do
    found ← repo.get_by_id id
    current ← lift (ok_or (not_found id) found)
    lift (map_err (domain_error id) (transition current.state to_state))

  unfoldable pub transition_session : SessionId → GameState → Method S DomainError (Session F)
  transition_session id to_state = do
    new_state ← decide_transition id to_state
    updated ← repo.update_state id new_state
    return updated
