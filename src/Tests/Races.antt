-- ===== src/Tests/Races.antt =====
-- The theorems of concurrent requests on the sample store.
use mathlib.Core.Path.{subst}
use pokemon_rs.Prelude.{
  ◌≡◌, refl, ◌≢◌, inl, inr, Option, some, List, [], ◌∷◌, arith, nat_beq, Bool-cases, nat_eq,
}
use pokemon_rs.Prelude.Map.{get, insert}
use pokemon_rs.StateEngine.{initialized, completed, playing, idle, transition}
use pokemon_rs.StateEngine.Graph.{◌⟶*◌, here, next, play, evaluate}
use pokemon_rs.Float.Fixed.{Fixed}
use pokemon_rs.Api.{Uuid, Session}
use pokemon_rs.Persistence.{SessionStore, session_store, session_update_state, session_get_by_id}
use pokemon_rs.Persistence.Sessions.{session_store-IsSessionRepository}
use pokemon_rs.Manager.{transition_session, decide_transition}
use pokemon_rs.Manager.Race.{Thread, asked, answered, advance}
use pokemon_rs.Manager.Schedules.{own, other, run_turns, run_turns-expected}
use pokemon_rs.Manager.Interleavings.{interleave_all, interleave_all-Reachable}
use pokemon_rs.Tests.{sample_sessions, evaluated_session}

abbrev view : SessionStore Fixed → Uuid → Option (Session Fixed)
view m id = get id m

-- A request for another session.
abbrev stranger : Thread Fixed
stranger = record { id = 8; to = playing; phase = asked }

run_turns-expected_example :
    let (s', t) =
      run_turns session_store
        (own ∷ other 0 ∷ other 0 ∷ own ∷ [])
        (record { id = 7; to = completed; phase = asked })
        (stranger ∷ [])
        sample_sessions in
    let (s_alone, r) = transition_session session_store 7 completed sample_sessions in
    (t.phase ≡ answered r) × (view s' 7 ≡ view s_alone 7)
run_turns-expected_example =
    run_turns-expected session_store view session_store-IsSessionRepository
      (own ∷ other 0 ∷ other 0 ∷ own ∷ []) 7 completed (stranger ∷ []) sample_sessions
      ((λ e. absurd (omega (arith, e))), tt) (omega arith)

abbrev rivals : List (Thread Fixed)
rivals =
    record { id = 7; to = completed; phase = asked }
    ∷ record { id = 7; to = playing; phase = asked }
    ∷ []

reopened :
    view (interleave_all session_store (0 ∷ 1 ∷ 0 ∷ 1 ∷ []) rivals sample_sessions).0 7
    ≡ some (record evaluated_session { state = playing })
unfolding get insert advance decide_transition session_update_state session_get_by_id transition
reopened = refl

known : (k : Uuid) (y : Session Fixed) → view sample_sessions k ≡ some y → initialized ⟶* y.state
unfolding get
known k y held = elim (Bool-cases (nat_beq 7 k)) [
  | inl same ↦
      let e : evaluated_session ≡ y = ground (arith, held, same) in
      subst (λ (z : Session Fixed). initialized ⟶* z.state) e (next (next here play) evaluate)
  | inr none_ ↦ absurd (ground (arith, held, none_))
]

interleave_all-Reachable_example : (initialized ⟶* playing) × (playing ≢ idle)
interleave_all-Reachable_example =
    interleave_all-Reachable session_store view session_store-IsSessionRepository
      (0 ∷ 1 ∷ 0 ∷ 1 ∷ []) rivals sample_sessions 7 (record evaluated_session { state = playing })
      known (refl, (refl, tt)) reopened
