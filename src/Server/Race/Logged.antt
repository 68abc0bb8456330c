-- ===== src/Server/Race/Logged.antt =====
-- The events of concurrent action requests (cli/src/server.rs: `play_action_handler`;
-- controller/src/event_store.rs).
use mathlib.Core.List.{Perm, perm_middle}
use mathlib.Core.List.Perm
use pokemon_rs.Prelude.{
  ℕ, zero, suc, ◌≡◌, refl, ap, ◌∙◌, ◌⊎◌, inl, inr, true, false, List, [], ◌∷◌, ◌++◌, map, arith,
  nat_beq_iff, Bool-cases, ◌==◌, nat_eq,
}
use pokemon_rs.Prelude.Schedule.{step_at}
use pokemon_rs.Float.{F64}
use pokemon_rs.Json.{Json, Serialize, IsSerde, DateTime}
use pokemon_rs.Api.{Uuid}
use pokemon_rs.Events
use pokemon_rs.Events.{GameplayEvent}
use pokemon_rs.Events.Order.{list_by_session-insert}
use pokemon_rs.Rl.Store.{ExperienceStore}
use pokemon_rs.AppState.{AppState}
use pokemon_rs.Server.{play_event, action_reward}
use pokemon_rs.Server.Play.{action_allowed}
use pokemon_rs.Server.Race.{Call, step_call, interleave_calls}
use pokemon_rs.Server.Race.Steps.{
  arrive, own_events, logged_events, arrived-logged_events, LogsOnce, advance_call-LogsOnce,
}

module _ {F J T S : Type 0} ⦃f : F64 F⦄ ⦃j : Json J⦄ ⦃w : Serialize F J⦄
    ⦃r : ExperienceStore F J T S⦄ ⦃d : DateTime T⦄ (laws : IsSerde F J) (k : Uuid) where
  step_call-own_events :
      (c : Call F T) (s : AppState F J T S)
      → let (s', c') = step_call c s in
        (s'.config ≡ s.config)
        × (((own_events {J = J} s.config k c' ≡ own_events s.config k c)
              × (Events.list_by_session k s'.event_store ≡ Events.list_by_session k s.event_store))
            ⊎ (e : GameplayEvent F J T) × (own_events s.config k c' ≡ e ∷ [])
              × (own_events {J = J} s.config k c ≡ [])
              × Perm
                  (Events.list_by_session k s'.event_store)
                  (e ∷ Events.list_by_session k s.event_store))
  unfolding LogsOnce play_event
  step_call-own_events c s =
      let (s', c') = step_call c s in
      let (fixed, same, moves) = advance_call-LogsOnce c.stage c s in
      let e : GameplayEvent F J T = play_event c.draw c.id c.req (action_reward s.config c.req) in
      let (stored, mine_, others) =
        (list_by_session-insert e s.event_store k).1 (action_allowed laws c.req.action) in
      elim (Bool-cases (c.id == k)) [
        | inl mine ↦
            let mine' : (c'.id == k) ≡ true = ap (λ i. i == k) same ∙ mine in
            elim moves [
              | inl (kept, quiet) ↦
                  rw (mine, mine') (fixed, inl (kept, ap (Events.list_by_session k) quiet))
              | inr (here, before, grown) ↦
                  rw (mine, mine', grown)
                    (fixed, inr (e, here, before, mine_ ((nat_beq_iff c.id k).0 mine)))
            ]
        | inr other ↦
            let other' : (c'.id == k) ≡ false = ap (λ i. i == k) same ∙ other in
            elim moves [
              | inl (kept, quiet) ↦
                  rw (other, other') (fixed, inl (refl, ap (Events.list_by_session k) quiet))
              | inr (here, before, grown) ↦
                  rw (other, other', grown)
                    (fixed, inl (refl, others (ground (arith, nat_beq_iff c.id k))))
            ]
      ]

  -- A turn changes neither the events that the calls have logged for a session nor its listing, or
  -- it adds the same event to both.
  step_at-logged_events :
      (n : ℕ) (cs : List (Call F T)) (s : AppState F J T S)
      → let (s', cs') = step_at step_call n cs s in
        (s'.config ≡ s.config)
        × (((logged_events {J = J} s.config k cs' ≡ logged_events s.config k cs)
              × (Events.list_by_session k s'.event_store ≡ Events.list_by_session k s.event_store))
            ⊎ (e : GameplayEvent F J T) × Perm
                (logged_events s.config k cs')
                (e ∷ logged_events s.config k cs)
              × Perm
                  (Events.list_by_session k s'.event_store)
                  (e ∷ Events.list_by_session k s.event_store))
  step_at-logged_events n [] s = (refl, inl (refl, refl))
  step_at-logged_events zero (c ∷ cs) s =
      let (fixed, moves) = step_call-own_events c s in
      let rest = logged_events {J = J} s.config k cs in
      (
        fixed,
        elim moves [
          | inl (same, kept) ↦ inl (ap (λ es. es ++ rest) same, kept)
          | inr (e, now, before, added) ↦ inr (e, rw (now, before) Perm.rfl, added)
        ],
      )
  step_at-logged_events (suc n) (c ∷ cs) s =
      let (fixed, moves) = step_at-logged_events n cs s in
      let own = own_events {J = J} s.config k c in
      (
        fixed,
        elim moves [
          | inl (same, kept) ↦ inl (ap (λ es. own ++ es) same, kept)
          | inr (e, grown, added) ↦
              inr (e, Perm.trans (Perm.append_left own grown) (perm_middle own _), added)
        ],
      )

  -- If a listing holds what the calls have logged and `old`, then it does so after any turns.
  interleave_calls-kept :
      (turns : List ℕ) (cs : List (Call F T)) (s : AppState F J T S)
      (old : List (GameplayEvent F J T))
      → Perm (Events.list_by_session k s.event_store) (logged_events s.config k cs ++ old)
      → let (s', cs') = interleave_calls turns cs s in
        Perm (Events.list_by_session k s'.event_store) (logged_events s.config k cs' ++ old)
  interleave_calls-kept [] cs s old held = held
  interleave_calls-kept (n ∷ turns) cs s old held =
      let (s', cs') = step_at step_call n cs s in
      let (fixed, moves) = step_at-logged_events n cs s in
      let rest = interleave_calls-kept turns cs' s' old in
      let held' : Perm (Events.list_by_session k s'.event_store)
          (logged_events s.config k cs' ++ old) =
        elim moves [
          | inl (same, kept) ↦ rw (same, kept) held
          | inr (e, grown, added) ↦
              Perm.trans added
                (Perm.trans (Perm.cons e held) (Perm.append_right old (Perm.symm grown)))
        ] in
      rw fixed at rest held'

  -- No event of concurrent action requests is lost and none is stored twice: if actions are
  -- serialised with their type, then for any calls that have just arrived and any schedule of their
  -- steps, the events listed for a session are those that were listed before and, once for each
  -- call on the session that has come as far as to log it, the call's event.
  pub interleave_calls-logged_events :
      (turns : List ℕ) (cs : List (Call F T)) (s : AppState F J T S)
      → let (s', cs') = interleave_calls turns (map arrive cs) s in
        Perm
          (Events.list_by_session k s'.event_store)
          (logged_events s.config k cs' ++ Events.list_by_session k s.event_store)
  interleave_calls-logged_events turns cs s =
      interleave_calls-kept turns (map arrive cs) s (Events.list_by_session k s.event_store)
        (rw (arrived-logged_events k s.config cs) Perm.rfl)
