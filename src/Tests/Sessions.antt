-- ===== src/Tests/Sessions.antt =====
-- The session theorems on the sample service.
use pokemon_rs.Prelude.{
  ℕ, ◌≡◌, refl, ◌↔◌, ◌⊎◌, true, false, Option, some, [], ◌∷◌, nat_beq, if◌then◌else◌, ok, nat_eq,
}
use pokemon_rs.Prelude.Map.{get}
use pokemon_rs.StateEngine.{completed, playing, evaluating, transition}
use pokemon_rs.StateEngine.Graph.{transition_iff, ◌⟶◌}
use pokemon_rs.Float.Fixed.{Fixed, fixed_f64}
use pokemon_rs.Api.{Session}
use pokemon_rs.Domain.Laws.{IsSessionRepository}
use pokemon_rs.Persistence.{session_store, SessionStore}
use pokemon_rs.Persistence.Sessions.{session_store-IsSessionRepository}
use pokemon_rs.Manager.{transition_session}
use pokemon_rs.Manager.Laws.{expected, stored, transition_session_lem}
use pokemon_rs.Manager.Race.{completed_session_reopened, asked, answered, interleave}
use pokemon_rs.Tests.{sample_sessions, evaluated_session}

abbrev view : SessionStore Fixed → ℕ → Option (Session Fixed)
view m id = get id m

transition_iff_example :
    (transition evaluating completed ≡ ok completed)
    ↔ ((completed ≡ completed) × ((evaluating ≡ completed) ⊎ (evaluating ⟶ completed)))
transition_iff_example = transition_iff evaluating completed completed

transition_session_lem_example :
    let (s', r) = transition_session session_store 7 completed sample_sessions in
    (r ≡ expected 7 completed (view sample_sessions 7))
    × (view s' 7
        ≡ (if nat_beq 7 7 then stored (view sample_sessions 7) r else view sample_sessions 7))
transition_session_lem_example =
    transition_session_lem session_store view session_store-IsSessionRepository 7 7 completed
      sample_sessions

session_store-IsSessionRepository_example : IsSessionRepository session_store view
session_store-IsSessionRepository_example = session_store-IsSessionRepository

completed_session_reopened_example :
    let (s', a, b) =
      interleave session_store
        (true ∷ false ∷ true ∷ false ∷ [])
        (record { id = 7; to = completed; phase = asked })
        (record { id = 7; to = playing; phase = asked })
        sample_sessions in
    (a.phase ≡ answered (ok (record evaluated_session { state = completed })))
    × (b.phase ≡ answered (ok (record evaluated_session { state = playing })))
    × (view s' 7 ≡ some (record evaluated_session { state = playing }))
unfolding get
completed_session_reopened_example =
    completed_session_reopened session_store view session_store-IsSessionRepository 7
      sample_sessions evaluated_session refl refl
