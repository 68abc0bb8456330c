-- ===== src/Tests/Replay.antt =====
-- The theorems of the event store and the replay buffer on the sample service.
use mathlib.Core.List.{Perm}
use pokemon_rs.Prelude.{ℕ, ◌≡◌, refl, some, List, [], ◌∷◌, map, arith, length, filter, nat_eq}
use pokemon_rs.Prelude.Map.{get}
use pokemon_rs.Prelude.Sort.{sort_by}
use pokemon_rs.Float.Fixed.{Fixed}
use pokemon_rs.Json.Plain.{Plain, plain_json, millis}
use pokemon_rs.Events
use pokemon_rs.Events.{GameplayEvent}
use pokemon_rs.Events.Order.{Ascending, same_second, list_by_session_lem}
use pokemon_rs.Rl.Store
use pokemon_rs.Rl.Store.{in_memory_store}
use pokemon_rs.Rl.Export.{export_experiences, of_experience}
use pokemon_rs.Rl.Export.Pages.{fetched, join_pages, join_pages-export_experiences}
use pokemon_rs.Tests.{event_at, sample_replay}

abbrev events : List (GameplayEvent Fixed Plain ℕ)
events = event_at 1 5000 ∷ event_at 2 1000 ∷ event_at 3 1500 ∷ []

list_by_session_lem_example :
    let out = Events.list_by_session 7 events in
    Perm out (filter (Events.of_session 7) events)
    × Ascending out
    × ((e : GameplayEvent Fixed Plain ℕ)
        → filter (same_second e) out ≡ filter (same_second e) (filter (Events.of_session 7) events))
list_by_session_lem_example = list_by_session_lem 7 events

two_stored : length (Store.list_by_session 7 sample_replay) ≡ 2
unfolding Store.list_by_session get sort_by
two_stored = refl

join_pages-export_experiences_example :
    join_pages
      (λ o. fetched (
        export_experiences in_memory_store
          (record { session_id = 7; limit = 1; offset = o })
          sample_replay))
      1
      2
      0
    ≡ some (map of_experience (Store.list_by_session 7 sample_replay))
join_pages-export_experiences_example =
    join_pages-export_experiences in_memory_store sample_replay sample_replay 7 1 2
      (Store.list_by_session 7 sample_replay) refl (omega arith) (omega arith)
      (omega (arith, two_stored)) (omega (arith, two_stored))
