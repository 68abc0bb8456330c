-- ===== src/Server/Race.antt =====
-- Concurrent action requests (cli/src/server.rs: `play_action_handler`). Every store has a lock of
-- its own, which a handler takes for one call at a time, so that other handlers may run in between.
-- A handler is a thread of six atomic steps.
pub mod Alone
pub mod Stale
pub mod Steps
pub mod Sessions
pub mod Logged
use pokemon_rs.Prelude.{ℕ, Option, none, some, List, Result, ok, err, nat_eq}
use pokemon_rs.Prelude.Map.{insert}
use pokemon_rs.Prelude.Schedule.{interleave, run_alone}
use pokemon_rs.StateEngine.{GameState}
use pokemon_rs.Float.{F64}
use pokemon_rs.Json.{Json, Serialize}
use pokemon_rs.Api.{Uuid, Session, PlayActionRequest, PlayActionResponse}
use pokemon_rs.Domain.{DomainError, not_found}
use pokemon_rs.Persistence.{session_store}
use pokemon_rs.Manager.{get_session, decide_transition}
use pokemon_rs.Events
use pokemon_rs.Rl.Store.{ExperienceStore}
use pokemon_rs.AppState.{AppState}
use pokemon_rs.Server.{
  Draw, on_sessions, next_state, simulate_result, action_reward, play_event, play_experience,
  record_state,
}

-- Where a handler stands: before its first read; with the session that it read; with the new state
-- that a second read allowed; after its write; after the counters; after the event; or answered.
pub data Stage (F : Type 0) : Type 0 where
  called : Stage F
  looked : Session F → Stage F
  decided : Session F → GameState → Stage F
  moved : Session F → Session F → Stage F
  counted : Session F → Session F → Stage F
  logged : Session F → Session F → Stage F
  answered : Result DomainError (PlayActionResponse F) → Stage F

pub record Call (F T : Type 0) : Type 0 where
  pub id : Uuid
  pub req : PlayActionRequest F
  pub draw : Draw T
  pub stage : Stage F

module _ {F J T S : Type 0} where
  abbrev at : Call F T → Stage F → AppState F J T S → AppState F J T S × Call F T
  at c stage s = (s, record c { stage = stage })

  abbrev after_look :
      Call F T
      → AppState F J T S × Result DomainError (Option (Session F))
      → AppState F J T S × Call F T
  after_look c (s, ok none) = at c (answered (err (not_found c.id))) s
  after_look c (s, ok (some x)) = at c (looked x) s
  after_look c (s, err e) = at c (answered (err e)) s

  abbrev after_decision :
      Call F T
      → Session F
      → AppState F J T S × Result DomainError GameState
      → AppState F J T S × Call F T
  after_decision c prev (s, ok st) = at c (decided prev st) s
  after_decision c prev (s, err e) = at c (answered (err e)) s

  abbrev after_write :
      Call F T
      → Session F
      → AppState F J T S × Result DomainError (Session F)
      → AppState F J T S × Call F T
  after_write c prev (s, ok x) = at c (moved prev x) s
  after_write c prev (s, err e) = at c (answered (err e)) s

module _ {F J T S : Type 0} ⦃f : F64 F⦄ ⦃j : Json J⦄ ⦃w : Serialize F J⦄
    ⦃r : ExperienceStore F J T S⦄ where
  -- One atomic step.
  unfoldable pub advance_call : Stage F → Call F T → AppState F J T S → AppState F J T S × Call F T
  advance_call called c s = after_look c (on_sessions (get_session session_store c.id) s)
  advance_call (looked prev) c s =
      after_decision c prev
        (on_sessions (decide_transition session_store c.id (next_state c.req.action.action_type)) s)
  advance_call (decided prev st) c s =
      after_write c prev (on_sessions (session_store.update_state c.id st) s)
  advance_call (moved prev x) c s =
      at c (counted prev x) (record s { metrics = record_state x.state s.metrics })
  advance_call (counted prev x) c s =
      let event = play_event c.draw c.id c.req (action_reward s.config c.req) in
      at c (logged prev x) (record s { event_store = (Events.insert event s.event_store).0 })
  advance_call (logged prev x) c s =
      let exp =
        play_experience c.draw c.id c.req (action_reward s.config c.req) prev.state x.state in
      at c (answered (ok (record { session = x; result = simulate_result c.req.action })))
        (record s { rl_store = (r.insert_experience exp s.rl_store).0 })
  advance_call (answered a) c s = (s, c)

  abbrev pub step_call : Call F T → AppState F J T S → AppState F J T S × Call F T
  step_call c s = advance_call c.stage c s

  -- The calls under a schedule that says whose turn it is.
  abbrev pub interleave_calls :
      List ℕ → List (Call F T) → AppState F J T S → AppState F J T S × List (Call F T)
  interleave_calls = interleave step_call

  -- So many steps with no other call in between.
  abbrev pub run_call : ℕ → Call F T → AppState F J T S → AppState F J T S × Call F T
  run_call = run_alone step_call
