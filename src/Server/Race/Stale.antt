-- ===== src/Server/Race/Stale.antt =====
-- An experience that two concurrent action requests (cli/src/server.rs: `play_action_handler`)
-- leave behind.
use mathlib.Core.List.{Perm}
use mathlib.Core.List.Perm
use mathlib.Core.Path.{subst}
use pokemon_rs.Prelude.{◌≡◌, refl, sym, ap, ◌∙◌, ◌≢◌, Option, some, [], ◌∷◌, ok, err, nat_eq}
use pokemon_rs.Prelude.Map.{get, insert, get-insert_self}
use pokemon_rs.StateEngine.{GameState, StateError, playing, evaluating, completed, transition}
use pokemon_rs.Float.{F64}
use pokemon_rs.Json.{Json, Serialize, DateTime}
use pokemon_rs.Api.{Uuid, nil_uuid, Session, Money, PlayActionRequest, GameplayActionType}
use pokemon_rs.Rl.Store
use pokemon_rs.Rl.Store.{InMemoryStore, in_memory_store}
use pokemon_rs.Rl.Store.Listing.{list_by_session-insert_experience}
use pokemon_rs.AppState.{AppState}
use pokemon_rs.Server.{Draw, simulate_result, record_play, play_experience, action_reward}
use pokemon_rs.Server.Race.{Stage, called, looked, answered, Call, interleave_calls}
use pokemon_rs.Server.Race.Alone.{finish_granted, look_found}

module _ {F : Type 0} where
  abbrev pub request_of : GameplayActionType → Option (Money F) → Option F → PlayActionRequest F
  request_of t amount likeness = record {
    action = record { action_type = t; amount = amount };
    human_likeness = likeness;
  }

  abbrev pub in_state : GameState → Session F → Session F
  in_state st x = record x { state = st }

  abbrev pub answer_with : ⦃f : F64 F⦄ → Session F → PlayActionRequest F → Stage F
  answer_with x req = answered (ok (record { session = x; result = simulate_result req.action }))

module _ {F J T : Type 0} ⦃f : F64 F⦄ ⦃j : Json J⦄ ⦃w : Serialize F J⦄ ⦃d : DateTime T⦄ where
  -- The two requests as they are left by the schedule.
  stale_run :
      (s : AppState F J T (InMemoryStore F J T)) (id : Uuid) (x : Session F)
      (m n : Option (Money F)) (h k : Option F) (a b : Draw T)
      → get id s.session_repo ≡ some (in_state playing x)
      → let out = request_of GameplayActionType.cash_out m h in
        let turn = request_of GameplayActionType.spin n k in
        let first : Call F T = record { id = id; req = out; draw = a; stage = called } in
        let second : Call F T = record { id = id; req = turn; draw = b; stage = called } in
        let xb = in_state evaluating x in
        let xa = in_state completed x in
        let sb =
          (record_play b id turn playing xb
            (record s { session_repo = insert id xb s.session_repo })).0 in
        let sa =
          (record_play a id out playing xa
            (record sb { session_repo = insert id xa sb.session_repo })).0 in
        interleave_calls
          (0 ∷ 1 ∷ 1 ∷ 1 ∷ 1 ∷ 1 ∷ 1 ∷ 0 ∷ 0 ∷ 0 ∷ 0 ∷ 0 ∷ [])
          (first ∷ second ∷ [])
          s
        ≡ (
          sa,
          record first { stage = answer_with xa out }
              ∷ record second { stage = answer_with xb turn }
              ∷ [],
        )
  unfolding record_play transition
  stale_run s id x m n h k a b found =
      let out = request_of GameplayActionType.cash_out m h in
      let turn = request_of GameplayActionType.spin n k in
      let first : Call F T = record { id = id; req = out; draw = a; stage = called } in
      let first' : Call F T = record first { stage = looked (in_state playing x) } in
      let second : Call F T = record { id = id; req = turn; draw = b; stage = called } in
      let second' : Call F T = record second { stage = looked (in_state playing x) } in
      let xb = in_state evaluating x in
      let sb =
        (record_play b id turn playing xb
          (record s { session_repo = insert id xb s.session_repo })).0 in
      let spun = finish_granted second s (in_state playing x) (in_state playing x) found refl in
      let there : get id sb.session_repo ≡ some xb = get-insert_self id xb s.session_repo in
      let cashed = finish_granted first sb (in_state playing x) xb there refl in
      let State : Type 0 = AppState F J T (InMemoryStore F J T) × Call F T in
      rw (look_found first s (in_state playing x) found) (
        rw (look_found second s (in_state playing x) found) (
          ap (λ (p : State). interleave_calls (0 ∷ 0 ∷ 0 ∷ 0 ∷ 0 ∷ []) (first' ∷ p.1 ∷ []) p.0) spun
          ∙ ap (λ (p : State). (p.0, p.1 ∷ record second { stage = answer_with xb turn } ∷ []))
              cashed))

  -- A cash-out and a spin that arrive together while the session `id`, not the nil id, is in
  -- `playing`, under the schedule in which the cash-out reads the session, the spin then runs all
  -- its steps, and the cash-out ends: both are answered with success, and the listing of the
  -- session's experiences gains two entries that both start in `playing`. That of the cash-out ends
  -- in `completed`, a change of state that `transition` refuses.
  pub stale_experience :
      (s : AppState F J T (InMemoryStore F J T)) (id : Uuid) (x : Session F)
      (m n : Option (Money F)) (h k : Option F) (a b : Draw T)
      → get id s.session_repo ≡ some (in_state playing x)
      → id ≢ nil_uuid
      → let out = request_of GameplayActionType.cash_out m h in
        let turn = request_of GameplayActionType.spin n k in
        let first : Call F T = record { id = id; req = out; draw = a; stage = called } in
        let second : Call F T = record { id = id; req = turn; draw = b; stage = called } in
        let (s', cs) =
          interleave_calls
            (0 ∷ 1 ∷ 1 ∷ 1 ∷ 1 ∷ 1 ∷ 1 ∷ 0 ∷ 0 ∷ 0 ∷ 0 ∷ 0 ∷ [])
            (first ∷ second ∷ [])
            s in
        (cs
          ≡ record first { stage = answer_with (in_state completed x) out }
            ∷ record second { stage = answer_with (in_state evaluating x) turn }
            ∷ [])
        × Perm (Store.list_by_session id s'.rl_store) (
            play_experience a id out (action_reward s.config out) playing completed
            ∷ play_experience b id turn (action_reward s.config turn) playing evaluating
            ∷ Store.list_by_session id s.rl_store)
        × (transition playing completed ≡ err (StateError.invalid_transition playing completed))
  unfolding record_play play_experience transition Store.new
  stale_experience s id x m n h k a b found valid =
      let out = request_of GameplayActionType.cash_out m h in
      let turn = request_of GameplayActionType.spin n k in
      let spun = play_experience b id turn (action_reward s.config turn) playing evaluating in
      let cashed = play_experience a id out (action_reward s.config out) playing completed in
      let run = stale_run s id x m n h k a b found in
      let after_spin = (Store.insert_experience spun s.rl_store).0 in
      let added = λ (e : Store.Experience F J T) (o : InMemoryStore F J T).
        (list_by_session-insert_experience e o id).1 in
      (
        ap (λ p. p.1) run,
        subst
            (λ l.
              Perm (Store.list_by_session id l)
                (cashed ∷ spun ∷ Store.list_by_session id s.rl_store))
            (sym (ap (λ p. p.0.rl_store) run))
            (Perm.trans ((added cashed after_spin valid).1 refl)
              (Perm.cons cashed ((added spun s.rl_store valid).1 refl))),
        refl,
      )
