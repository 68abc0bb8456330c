-- ===== src/Manager/Laws.antt =====
-- The session manager (controller/src/game_session_manager/mod.rs) against a function from
-- identifiers to sessions, for every repository that keeps the trait's promises.
use pokemon_rs.Prelude.{
  ◌≡◌, ◌⊎◌, inl, inr, Option, none, some, arith, if◌then◌else◌, nat_beq_iff, Bool-cases,
  Option-cases, ◌==◌, Result, ok, err, map_err, nat_eq,
}
use pokemon_rs.Float.{F64}
use pokemon_rs.StateEngine.{GameState, transition, initialized}
use pokemon_rs.StateEngine.Graph.{transition-cases}
use pokemon_rs.Api.{Uuid, SessionId, Session, CreateSessionRequest}
use pokemon_rs.Domain.{DomainError, SessionRepository, not_found, invalid_transition}
use pokemon_rs.Domain.Laws.{IsSessionRepository}
use pokemon_rs.Manager.{
  default_metrics, domain_error, create_session, get_session, decide_transition, transition_session,
}

-- What a transition request on the session that is stored, if one is, should answer.
abbrev pub expected :
    {F : Type 0} → SessionId → GameState → Option (Session F) → Result DomainError (Session F)
expected id to none = err (not_found id)
expected id to (some x) = elim (transition x.state to) [
  | ok s ↦ ok (record x { state = s })
  | err e ↦ err (invalid_transition x.state)
]

-- What the store should hold under the identifier afterwards.
abbrev pub stored :
    {F : Type 0} → Option (Session F) → Result DomainError (Session F) → Option (Session F)
stored old (ok x) = some x
stored old (err e) = old

module _ {F S : Type 0} (repo : SessionRepository F S) (view : S → Uuid → Option (Session F))
    (laws : IsSessionRepository repo view) where
  -- Over a repository that keeps the trait's promises, a created session is in the state
  -- `initialized` with the request's game and empty metrics, is found under the new identifier, and
  -- leaves every other entry as it was.
  pub get_session-create_session :
      ⦃f : F64 F⦄ (id j : Uuid) (req : CreateSessionRequest F) (s : S)
      → let (s', r) = create_session repo id req s in
        (r ≡ ok (record { session_id = id; state = initialized }))
        × ((get_session repo j s').1
            ≡ ok (
                if id == j
                then some (record {
                  session_id = id;
                  game_id = req.game_id;
                  state = initialized;
                  metrics = default_metrics;
                })
                else view s j))
  unfolding create_session get_session
  get_session-create_session id j req s =
      let x : Session F = record {
        session_id = id;
        game_id = req.game_id;
        state = initialized;
        metrics = default_metrics;
      } in
      ground (
        arith,
        laws.create_ok x s,
        laws.view-create x s j,
        laws.get_by_id_lem j (repo.create x s).0,
      )

  -- The decision is taken on the stored state, and the store is only read.
  pub decide_transition_lem :
      (id : SessionId) (to : GameState) (s : S)
      → decide_transition repo id to s ≡ (
        s,
        elim (view s id) [
          | none ↦ err (not_found id)
          | some x ↦ map_err (domain_error id) (transition x.state to)
        ],
      )
  unfolding decide_transition
  decide_transition_lem id to s = ground (arith, laws.get_by_id_lem id s)

  -- Over a repository that keeps the trait's promises, a transition answers "not found" for a
  -- missing session, "invalid transition" with the current state for a refused one, and else the
  -- session in its new state, which is then stored; nothing else of the store changes in any case.
  pub transition_session_lem :
      (id j : SessionId) (to : GameState) (s : S)
      → let (s', r) = transition_session repo id to s in
        (r ≡ expected id to (view s id))
        × (view s' j ≡ (if id == j then stored (view s id) r else view s j))
  unfolding transition_session
  transition_session_lem id j to s = elim (Option-cases (view s id)) [
    | inl missing ↦ ground (arith, decide_transition_lem id to s)
    | inr (x, found) ↦ elim (transition-cases x.state to) [
      | inl granted ↦ ground (
        arith,
        decide_transition_lem id to s,
        laws.update_found id to s x found,
        laws.view-update id to s x j found,
      )
      | inr refused ↦ ground (arith, decide_transition_lem id to s)
    ]
  ]

  -- Seen through one identifier, a transition request does nothing, or moves the stored session.
  pub transition_session-cases :
      (id j : SessionId) (to : GameState) (s : S)
      → (view (transition_session repo id to s).0 j ≡ view s j)
        ⊎ ((y : Session F) × (view s j ≡ some y)
            × (transition y.state to ≡ ok to)
            × (view (transition_session repo id to s).0 j ≡ some (record y { state = to })))
  transition_session-cases id j to s = elim (Bool-cases (id == j)) [
    | inl same ↦
        let e : id ≡ j = (nat_beq_iff id j).0 same in
        elim (Option-cases (view s id)) [
          | inl missing ↦ inl (ground (arith, transition_session_lem id j to s))
          | inr (y, found) ↦ elim (transition-cases y.state to) [
            | inl granted ↦
                inr (y, rw (← e) found, granted, ground (arith, transition_session_lem id j to s))
            | inr refused ↦ inl (ground (arith, transition_session_lem id j to s))
          ]
        ]
    | inr other ↦ inl (ground (arith, transition_session_lem id j to s))
  ]

  -- What a creation leaves in the store.
  pub view-create_session :
      ⦃f : F64 F⦄ (id j : Uuid) (req : CreateSessionRequest F) (s : S)
      → view (create_session repo id req s).0 j ≡ (
          if id == j
          then some (record {
            session_id = id;
            game_id = req.game_id;
            state = initialized;
            metrics = default_metrics;
          })
          else view s j)
  unfolding create_session
  view-create_session id j req s =
      let x : Session F = record {
        session_id = id;
        game_id = req.game_id;
        state = initialized;
        metrics = default_metrics;
      } in
      ground (arith, laws.create_ok x s, laws.view-create x s j)
