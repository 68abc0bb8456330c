-- ===== src/Server/Race/Alone.antt =====
-- An action request that runs its steps with no other in between is `play_action_handler`
-- (cli/src/server.rs).
use pokemon_rs.Prelude.{
  ◌≡◌, refl, ap, ◌∙◌, inl, inr, none, some, arith, Option-cases, ok, err, nat_eq,
}
use pokemon_rs.Prelude.Map.{get, insert}
use pokemon_rs.StateEngine.{GameState, StateError, transition}
use pokemon_rs.StateEngine.Graph.{transition-cases}
use pokemon_rs.Float.{F64}
use pokemon_rs.Json.{Json, Serialize}
use pokemon_rs.Api.{Session}
use pokemon_rs.Domain.{DomainError, not_found}
use pokemon_rs.Persistence.{session_get_by_id, session_update_state}
use pokemon_rs.Manager.{get_session, decide_transition}
use pokemon_rs.Rl.Store.{ExperienceStore}
use pokemon_rs.AppState.{AppState}
use pokemon_rs.Server.{next_state, record_play, play_action_handler}
use pokemon_rs.Server.Play.{handler_missing, handler_refused, handler_granted}
use pokemon_rs.Server.Race.{called, looked, decided, moved, answered, Call, advance_call, run_call}

module _ {F J T S : Type 0} ⦃f : F64 F⦄ ⦃j : Json J⦄ ⦃w : Serialize F J⦄
    ⦃r : ExperienceStore F J T S⦄ where
  -- The first two reads and the write.
  pub look_found :
      (c : Call F T) (s : AppState F J T S) (x : Session F)
      → get c.id s.session_repo ≡ some x
      → advance_call called c s ≡ (s, record c { stage = looked x })
  unfolding advance_call get_session session_get_by_id
  look_found c s x found = ground arith

  pub decide_granted :
      (c : Call F T) (s : AppState F J T S) (prev x : Session F)
      → let to = next_state c.req.action.action_type in
        get c.id s.session_repo ≡ some x
        → transition x.state to ≡ ok to
        → advance_call (looked prev) c s ≡ (s, record c { stage = decided prev to })
  unfolding advance_call decide_transition session_get_by_id
  decide_granted c s prev x found granted = ground arith

  pub decide_refused :
      (c : Call F T) (s : AppState F J T S) (prev x : Session F)
      → let to = next_state c.req.action.action_type in
        get c.id s.session_repo ≡ some x
        → transition x.state to ≡ err (StateError.invalid_transition x.state to)
        → advance_call (looked prev) c s
          ≡ (s, record c { stage = answered (err (DomainError.invalid_transition x.state)) })
  unfolding advance_call decide_transition session_get_by_id
  decide_refused c s prev x found refused = ground arith

  pub write_found :
      (c : Call F T) (s : AppState F J T S) (prev x : Session F) (to : GameState)
      → get c.id s.session_repo ≡ some x
      → let x' : Session F = record x { state = to } in
        advance_call (decided prev to) c s ≡ (
          record s { session_repo = insert c.id x' s.session_repo },
          record c { stage = moved prev x' },
        )
  unfolding advance_call session_update_state
  write_found c s prev x to found = ground arith

  pub decide_missing :
      (c : Call F T) (s : AppState F J T S) (prev : Session F)
      → get c.id s.session_repo ≡ none
      → advance_call (looked prev) c s ≡ (s, record c { stage = answered (err (not_found c.id)) })
  unfolding advance_call decide_transition session_get_by_id
  decide_missing c s prev missing = ground arith

  pub write_missing :
      (c : Call F T) (s : AppState F J T S) (prev : Session F) (to : GameState)
      → get c.id s.session_repo ≡ none
      → advance_call (decided prev to) c s
        ≡ (s, record c { stage = answered (err (not_found c.id)) })
  unfolding advance_call session_update_state
  write_missing c s prev to missing = ground arith

  -- A call that has read the session `prev`, and that finds it as `x` when it asks for the change
  -- of state, ends as the handler does, but for the state that it records as the one before.
  pub finish_granted :
      (c : Call F T) (s : AppState F J T S) (prev x : Session F)
      → let to = next_state c.req.action.action_type in
        get c.id s.session_repo ≡ some x
        → transition x.state to ≡ ok to
        → let x' : Session F = record x { state = to } in
          let (s', a) =
            record_play c.draw c.id c.req prev.state x'
              (record s { session_repo = insert c.id x' s.session_repo }) in
          run_call 5 (record c { stage = looked prev }) s ≡ (s', record c { stage = answered a })
  unfolding advance_call record_play
  finish_granted c s prev x found granted =
      let to = next_state c.req.action.action_type in
      let c1 : Call F T = record c { stage = looked prev } in
      let c2 : Call F T = record c { stage = decided prev to } in
      rw (decide_granted c1 s prev x found granted) (rw (write_found c2 s prev x to found) refl)

  pub look_missing :
      (c : Call F T) (s : AppState F J T S)
      → get c.id s.session_repo ≡ none
      → advance_call called c s ≡ (s, record c { stage = answered (err (not_found c.id)) })
  unfolding advance_call get_session session_get_by_id
  look_missing c s missing = ground arith

  -- An action request whose six steps no other request interrupts has the effect and the answer of
  -- `play_action_handler`.
  pub run_call-play_action_handler :
      (c : Call F T) (s : AppState F J T S)
      → let (s', a) = play_action_handler c.draw c.id c.req s in
        run_call 6 (record c { stage = called }) s ≡ (s', record c { stage = answered a })
  unfolding advance_call
  run_call-play_action_handler c s =
      let to = next_state c.req.action.action_type in
      let c0 : Call F T = record c { stage = called } in
      elim (Option-cases (get c.id s.session_repo)) [
        | inl missing ↦
            rw (handler_missing c.draw c.id c.req s missing) (rw (look_missing c0 s missing) refl)
        | inr (x, found) ↦
            let c1 : Call F T = record c { stage = looked x } in
            elim (transition-cases x.state to) [
              | inl granted ↦ rw (handler_granted c.draw c.id c.req s x found granted) (
                  ap (λ (p : AppState F J T S × Call F T). run_call 5 p.1 p.0)
                    (look_found c0 s x found)
                  ∙ finish_granted c s x x found granted)
              | inr refused ↦ rw (handler_refused c.draw c.id c.req s x found refused) (
                  ap (λ (p : AppState F J T S × Call F T). run_call 5 p.1 p.0)
                    (look_found c0 s x found)
                  ∙ rw (decide_refused c1 s x x found refused) refl)
            ]
      ]
