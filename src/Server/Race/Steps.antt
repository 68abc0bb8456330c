-- ===== src/Server/Race/Steps.antt =====
-- When a step of an action request (cli/src/server.rs: `play_action_handler`) logs its event.
use pokemon_rs.Prelude.{
  ◌≡◌, refl, ◌⊎◌, inl, inr, List, [], ◌∷◌, ◌++◌, map, if◌then◌else◌, Bool-cases, Option-cases, ◌==◌,
  ok, nat_eq,
}
use pokemon_rs.Prelude.Map.{get}
use pokemon_rs.StateEngine.{GameState}
use pokemon_rs.StateEngine.Graph.{transition-cases}
use pokemon_rs.Float.{F64}
use pokemon_rs.Json.{Json, Serialize}
use pokemon_rs.Api.{Uuid, Session}
use pokemon_rs.Events
use pokemon_rs.Events.{GameplayEvent}
use pokemon_rs.Rl.Store.{ExperienceStore}
use pokemon_rs.Domain.{AppConfig}
use pokemon_rs.AppState.{AppState}
use pokemon_rs.Server.{next_state, play_event, action_reward}
use pokemon_rs.Server.Race.Alone.{
  look_found, look_missing, decide_granted, decide_refused, decide_missing, write_found,
  write_missing,
}
use pokemon_rs.Server.Race.{
  Stage, called, looked, decided, moved, counted, logged, answered, Call, advance_call, step_call,
}

module _ {F T : Type 0} where
  -- A request that has just arrived.
  abbrev pub arrive : Call F T → Call F T
  arrive c = record c { stage = called }

module _ {F J T : Type 0} ⦃f : F64 F⦄ ⦃j : Json J⦄ ⦃w : Serialize F J⦄ where
  -- The event of a call, if it has come as far as to log it.
  abbrev pub event_at : AppConfig F → Call F T → Stage F → List (GameplayEvent F J T)
  event_at config c (logged prev x) = play_event c.draw c.id c.req (action_reward config c.req) ∷ []
  event_at config c (answered (ok r)) =
      play_event c.draw c.id c.req (action_reward config c.req) ∷ []
  event_at config c st = []

  -- The events for the session `k` that calls have logged.
  abbrev pub own_events : AppConfig F → Uuid → Call F T → List (GameplayEvent F J T)
  own_events config k c = if c.id == k then event_at config c c.stage else []

  abbrev pub logged_events : AppConfig F → Uuid → List (Call F T) → List (GameplayEvent F J T)
  logged_events config k [] = []
  logged_events config k (c ∷ cs) = own_events config k c ++ logged_events config k cs

  pub arrived-logged_events :
      (k : Uuid) (config : AppConfig F) (cs : List (Call F T))
      → logged_events config k (map arrive cs) ≡ []
  arrived-logged_events k config [] = refl
  arrived-logged_events k config (c ∷ cs) =
      rw (arrived-logged_events k config cs)
        (elim (Bool-cases (c.id == k)) [ inl mine ↦ rw mine refl | inr other ↦ rw other refl ])

module _ {F J T S : Type 0} ⦃f : F64 F⦄ ⦃j : Json J⦄ ⦃w : Serialize F J⦄
    ⦃r : ExperienceStore F J T S⦄ where
  -- A step leaves the configuration as it is, and logs an event for its call at most.
  unfoldable pub LogsOnce :
      Call F T → Stage F → AppState F J T S → AppState F J T S × Call F T → Type 0
  LogsOnce c st s (s', c') =
      (s'.config ≡ s.config)
      × (c'.id ≡ c.id)
      × (((event_at {J = J} s.config c' c'.stage ≡ event_at s.config c st)
            × (s'.event_store ≡ s.event_store))
          ⊎ let e : GameplayEvent F J T =
              play_event c.draw c.id c.req (action_reward s.config c.req) in
            (event_at s.config c' c'.stage ≡ e ∷ [])
            × (event_at {J = J} s.config c st ≡ [])
            × (s'.event_store ≡ (Events.insert e s.event_store).0))

  look-LogsOnce :
      (c : Call F T) (s : AppState F J T S) → LogsOnce c called s (advance_call called c s)
  unfolding LogsOnce
  look-LogsOnce c s = elim (Option-cases (get c.id s.session_repo)) [
    | inl missing ↦ rw (look_missing c s missing) (refl, refl, inl (refl, refl))
    | inr (x, found) ↦ rw (look_found c s x found) (refl, refl, inl (refl, refl))
  ]

  decide-LogsOnce :
      (prev : Session F) (c : Call F T) (s : AppState F J T S)
      → LogsOnce c (looked prev) s (advance_call (looked prev) c s)
  unfolding LogsOnce
  decide-LogsOnce prev c s = elim (Option-cases (get c.id s.session_repo)) [
    | inl missing ↦ rw (decide_missing c s prev missing) (refl, refl, inl (refl, refl))
    | inr (x, found) ↦ elim (transition-cases x.state (next_state c.req.action.action_type)) [
      | inl granted ↦ rw (decide_granted c s prev x found granted) (refl, refl, inl (refl, refl))
      | inr refused ↦ rw (decide_refused c s prev x found refused) (refl, refl, inl (refl, refl))
    ]
  ]

  write-LogsOnce :
      (prev : Session F) (to : GameState) (c : Call F T) (s : AppState F J T S)
      → LogsOnce c (decided prev to) s (advance_call (decided prev to) c s)
  unfolding LogsOnce
  write-LogsOnce prev to c s = elim (Option-cases (get c.id s.session_repo)) [
    | inl missing ↦ rw (write_missing c s prev to missing) (refl, refl, inl (refl, refl))
    | inr (x, found) ↦ rw (write_found c s prev x to found) (refl, refl, inl (refl, refl))
  ]

  pub advance_call-LogsOnce :
      (st : Stage F) (c : Call F T) (s : AppState F J T S)
      → let c' : Call F T = record c { stage = st } in LogsOnce c' st s (step_call c' s)
  unfolding LogsOnce advance_call
  advance_call-LogsOnce called c s = look-LogsOnce (record c { stage = called }) s
  advance_call-LogsOnce (looked prev) c s =
      decide-LogsOnce prev (record c { stage = looked prev }) s
  advance_call-LogsOnce (decided prev to) c s =
      write-LogsOnce prev to (record c { stage = decided prev to }) s
  advance_call-LogsOnce (moved prev x) c s = (refl, refl, inl (refl, refl))
  advance_call-LogsOnce (counted prev x) c s = (refl, refl, inr (refl, refl, refl))
  advance_call-LogsOnce (logged prev x) c s = (refl, refl, inl (refl, refl))
  advance_call-LogsOnce (answered a) c s = (refl, refl, inl (refl, refl))
