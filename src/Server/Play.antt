-- ===== src/Server/Play.antt =====
-- What an action request does to the whole application state (cli/src/server.rs:
-- `play_action_handler`).
use mathlib.Core.List.{Perm}
use pokemon_rs.Prelude.{
  ◌≡◌, refl, sym, ◌≢◌, ◌⊎◌, inl, inr, true, none, some, ◌∷◌, arith, if◌then◌else◌, Option-cases,
  ◌==◌, Result, ok, err, nat_eq,
}
use pokemon_rs.Prelude.Map.{get, insert, get-insert}
use pokemon_rs.StateEngine.{StateError, transition}
use pokemon_rs.StateEngine.Graph.{transition-cases}
use pokemon_rs.Float.{F64}
use pokemon_rs.Json.{Json, Serialize, IsSerde, DateTime, action_name}
use pokemon_rs.Api.{
  nil_uuid, Uuid, Session, GameplayAction, GameplayActionType, place_bet, spin, cash_out,
  PlayActionRequest, PlayActionResponse,
}
use pokemon_rs.Domain.{DomainError, not_found}
use pokemon_rs.Persistence.{session_get_by_id, session_update_state}
use pokemon_rs.Manager.{get_session, transition_session, decide_transition}
use pokemon_rs.Manager.Laws.{expected}
use pokemon_rs.Events
use pokemon_rs.Events.{GameplayEvent, validate_action_type, allowed_name}
use pokemon_rs.Events.Order.{list_by_session-insert}
use pokemon_rs.Rl.Store
use pokemon_rs.Rl.Store.{InMemoryStore, Experience, ExperienceStore, in_memory_store}
use pokemon_rs.Rl.Store.Listing.{list_by_session-insert_experience}
use pokemon_rs.AppState.{AppState}
use pokemon_rs.Server.{
  Draw, unwrap_or, next_state, record_play, record_state, play_action_handler, play_event,
  play_experience, action_reward,
}

-- The session in the answer, or the error.
abbrev pub answered :
    {F : Type 0} → Result DomainError (PlayActionResponse F) → Result DomainError (Session F)
answered (ok p) = ok p.session
answered (err e) = err e

named_action : (t : GameplayActionType) → allowed_name (some (action_name t)) ≡ true
named_action place_bet = refl
named_action spin = refl
named_action cash_out = refl

pub action_allowed :
    {F J : Type 0} ⦃j : Json J⦄ ⦃w : Serialize F J⦄ (laws : IsSerde F J) (a : GameplayAction F)
    → validate_action_type (unwrap_or j.null (w.action_value a)) ≡ true
unfolding validate_action_type
action_allowed laws a =
    let (v, t, e, g, n) = laws.action_type_field a in
    rw (e, g, n, validate_action_type) (named_action a.action_type)

module _ {F J T S : Type 0} ⦃f : F64 F⦄ ⦃j : Json J⦄ ⦃w : Serialize F J⦄
    ⦃r : ExperienceStore F J T S⦄ where
  pub handler_granted :
      (draw : Draw T) (id : Uuid) (req : PlayActionRequest F) (s : AppState F J T S) (x : Session F)
      → let to = next_state req.action.action_type in
        get id s.session_repo ≡ some x
        → transition x.state to ≡ ok to
        → let x' = record x { state = to } in
          play_action_handler draw id req s
          ≡ record_play draw id req x.state x'
              (record s { session_repo = insert id x' s.session_repo })
  unfolding play_action_handler get_session transition_session decide_transition session_get_by_id
      session_update_state
  handler_granted draw id req s x found granted = ground arith

  pub handler_missing :
      (draw : Draw T) (id : Uuid) (req : PlayActionRequest F) (s : AppState F J T S)
      → get id s.session_repo ≡ none
      → play_action_handler draw id req s ≡ (s, err (not_found id))
  unfolding play_action_handler get_session session_get_by_id
  handler_missing draw id req s missing = ground arith

  pub handler_refused :
      (draw : Draw T) (id : Uuid) (req : PlayActionRequest F) (s : AppState F J T S) (x : Session F)
      → let to = next_state req.action.action_type in
        get id s.session_repo ≡ some x
        → transition x.state to ≡ err (StateError.invalid_transition x.state to)
        → play_action_handler draw id req s ≡ (s, err (DomainError.invalid_transition x.state))
  unfolding play_action_handler get_session transition_session decide_transition session_get_by_id
  handler_refused draw id req s x found refused = ground arith

  pub handler-cases :
      (draw : Draw T) (id : Uuid) (req : PlayActionRequest F) (s : AppState F J T S)
      → let to = next_state req.action.action_type in
        ((e : DomainError) × (play_action_handler draw id req s ≡ (s, err e))
          × (expected id to (get id s.session_repo) ≡ err e))
        ⊎ ((x : Session F) × (get id s.session_repo ≡ some x) × (transition x.state to ≡ ok to))
  handler-cases draw id req s =
      let to = next_state req.action.action_type in
      elim (Option-cases (get id s.session_repo)) [
        | inl missing ↦ inl (not_found id, handler_missing draw id req s missing, rw missing refl)
        | inr (x, found) ↦ elim (transition-cases x.state to) [
          | inl granted ↦ inr (x, found, granted)
          | inr refused ↦ inl (
            DomainError.invalid_transition x.state,
            handler_refused draw id req s x found refused,
            rw (found, refused, expected) refl,
          )
        ]
      ]

  -- An action request answers "not found" for a missing session and "invalid transition" with the
  -- current state if the action's state cannot follow it, and then changes nothing at all; else it
  -- answers the session in the action's state.
  pub play_action_handler-answered :
      (draw : Draw T) (id : Uuid) (req : PlayActionRequest F) (s : AppState F J T S)
      → let (s', r) = play_action_handler draw id req s in
        (answered r ≡ expected id (next_state req.action.action_type) (get id s.session_repo))
        × ((e : DomainError) → r ≡ err e → s' ≡ s)
  unfolding record_play
  play_action_handler-answered draw id req s = elim (handler-cases draw id req s) [
    | inl (e, same, why) ↦ (rw (same, why) refl, λ e' h. rw same refl)
    | inr (x, found, granted) ↦
        let e = handler_granted draw id req s x found granted in
        (rw (e, found, granted, expected) refl, λ e' h. cc (sym (rw e at h)))
  ]

module _ {F J T : Type 0} ⦃f : F64 F⦄ ⦃j : Json J⦄ ⦃w : Serialize F J⦄ ⦃d : DateTime T⦄ where
  -- Over the experience store in memory, and if actions are serialised with their type, an accepted
  -- action of a session whose identifier is not nil stores the session in the action's state and
  -- touches no other; one event and one experience are added to those of the session, and none to
  -- another's; the wallets, the fingerprints, the keys, the limiter and the configuration stay as
  -- they are.
  pub play_action_handler-recorded :
      (laws : IsSerde F J) (draw : Draw T) (id : Uuid) (req : PlayActionRequest F)
      (s : AppState F J T (InMemoryStore F J T)) (x : Session F)
      → let to = next_state req.action.action_type in
        id ≢ nil_uuid
        → get id s.session_repo ≡ some x
        → transition x.state to ≡ ok to
        → let s' = (play_action_handler draw id req s).0 in
          let x' : Session F = record x { state = to } in
          let reward = action_reward s.config req in
          ((k : Uuid) → get k s'.session_repo ≡ (if id == k then some x' else get k s.session_repo))
          × Perm
              (Events.list_by_session id s'.event_store)
              (play_event draw id req reward ∷ Events.list_by_session id s.event_store)
          × Perm
              (Store.list_by_session id s'.rl_store)
              (play_experience draw id req reward x.state to ∷ Store.list_by_session id s.rl_store)
          × ((k : Uuid)
              → id ≢ k
              → (Events.list_by_session k s'.event_store ≡ Events.list_by_session k s.event_store)
                × (Store.list_by_session k s'.rl_store ≡ Store.list_by_session k s.rl_store))
          × (s' ≡ record s {
            session_repo = s'.session_repo;
            event_store = s'.event_store;
            rl_store = s'.rl_store;
            metrics = record_state to s.metrics;
          })
  unfolding record_play play_event play_experience Store.new
  play_action_handler-recorded laws draw id req s x valid found granted =
      let to = next_state req.action.action_type in
      let x' : Session F = record x { state = to } in
      let reward = action_reward s.config req in
      let event : GameplayEvent F J T = play_event draw id req reward in
      let exp : Experience F J T = play_experience draw id req reward x.state to in
      let good = action_allowed laws req.action in
      let evt = λ (k : Uuid). (list_by_session-insert event s.event_store k).1 good in
      let rlx = λ (k : Uuid). (list_by_session-insert_experience exp s.rl_store k).1 valid in
      rw (handler_granted draw id req s x found granted) (
        λ k. get-insert id k x' s.session_repo,
        (evt id).1 refl,
        (rlx id).1 refl,
        λ k other. ((evt k).2 other, (rlx k).2 other),
        refl,
      )
