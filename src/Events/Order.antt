-- ===== src/Events/Order.antt =====
-- What `list_by_session` of the event store (controller/src/event_store.rs) returns.
use mathlib.Core.List.{Perm, append-nil}
use pokemon_rs.Prelude.{
  ◌≡◌, refl, sym, ap, ◌∙◌, ◌≢◌, Bool, true, false, not, ◌&&◌, [], ◌∷◌, ◌++◌, arith, nat_beq_iff,
  filter, All, filter-append, ok, err, nat_eq, text_eq,
}
use pokemon_rs.Prelude.Sort.{
  sort_by, Sorted, ties, sort_by-perm, sort_by-Sorted, sort_by_stable, sort_by-snoc,
}
use pokemon_rs.Prelude.Int.{ltb_ℤ}
use pokemon_rs.Api.{Uuid}
use pokemon_rs.Json.{Json, DateTime}
use pokemon_rs.Events.{
  GameplayEvent, InMemoryEventStore, invalid_action_type, validate_action_type, insert, greater,
  of_session, list_by_session, seconds,
}

module _ {F J T : Type 0} ⦃d : DateTime T⦄ where
  -- No event is of an earlier second than one before it; an event without a time counts as of the
  -- second 0.
  abbrev pub Ascending : InMemoryEventStore F J T → Type 0
  Ascending [] = Unit
  Ascending (x ∷ xs) =
      All (λ y. ltb_ℤ (seconds y.timestamp) (seconds x.timestamp) ≡ false) xs × Ascending xs

  abbrev pub same_second : GameplayEvent F J T → GameplayEvent F J T → Bool
  same_second x y =
      not (ltb_ℤ (seconds x.timestamp) (seconds y.timestamp))
      && not (ltb_ℤ (seconds y.timestamp) (seconds x.timestamp))

  pub list_by_session-Sorted :
      (id : Uuid) (events : InMemoryEventStore F J T) → Sorted greater (list_by_session id events)
  unfolding list_by_session
  list_by_session-Sorted id events =
      sort_by-Sorted greater (λ x y h. ground arith) (λ x y z h k. ground arith)
        (filter (of_session id) events)

  Ascending-Sorted : (xs : InMemoryEventStore F J T) → Sorted greater xs → Ascending xs
  Ascending-Sorted [] s = tt
  Ascending-Sorted (x ∷ xs) (a, s) = (a, Ascending-Sorted xs s)

  filter-same_second :
      (e : GameplayEvent F J T) (xs : InMemoryEventStore F J T)
      → filter (ties greater e) xs ≡ filter (same_second e) xs
  filter-same_second e [] = refl
  filter-same_second e (x ∷ xs) = ground (arith, filter-same_second e xs)

  -- The list holds exactly the session's events, as often as they were stored, in ascending order
  -- of their whole seconds, and events of one second stand in the order in which they were stored.
  pub list_by_session_lem :
      (id : Uuid) (events : InMemoryEventStore F J T)
      → let out = list_by_session id events in
        Perm out (filter (of_session id) events)
        × Ascending out
        × ((e : GameplayEvent F J T)
            → filter (same_second e) out ≡ filter (same_second e) (filter (of_session id) events))
  unfolding list_by_session
  list_by_session_lem id events =
      let mine = filter (of_session id) events in
      (
        sort_by-perm greater mine,
        Ascending-Sorted (sort_by greater mine) (list_by_session-Sorted id events),
        λ e.
            sym (filter-same_second e (sort_by greater mine))
            ∙ sort_by_stable greater (λ x y h. ground arith) (λ x y z h k. ground arith) e mine
            ∙ filter-same_second e mine,
      )

  list_by_session-snoc :
      (event : GameplayEvent F J T) (events : InMemoryEventStore F J T) (id : Uuid)
      → of_session id event ≡ true
      → Perm (list_by_session id (events ++ (event ∷ []))) (event ∷ list_by_session id events)
  unfolding list_by_session
  list_by_session-snoc event events id mine =
      let before = filter (of_session id) events in
      let e : filter (of_session id) (events ++ (event ∷ [])) ≡ before ++ (event ∷ []) =
        ground (arith, filter-append (of_session id) events (event ∷ [])) in
      rw e (sort_by-snoc greater before event)

  -- An event whose action has no allowed type is refused and not stored. An accepted event is added
  -- to what is listed for its session, and to no other session's list.
  pub list_by_session-insert :
      ⦃j : Json J⦄ (event : GameplayEvent F J T) (events : InMemoryEventStore F J T) (id : Uuid)
      → let (events', r) = insert event events in
        (validate_action_type event.action ≡ false
          → (r ≡ err invalid_action_type) × (events' ≡ events))
        × (validate_action_type event.action ≡ true
            → (r ≡ ok tt)
              × (event.session_id ≡ id
                  → Perm (list_by_session id events') (event ∷ list_by_session id events))
              × (event.session_id ≢ id → list_by_session id events' ≡ list_by_session id events))
  unfolding insert list_by_session
  list_by_session-insert event events id = (
    λ bad. rw (bad, insert) (refl, refl),
    λ good.
        rw (good, insert)
          (
            refl,
            λ mine. list_by_session-snoc event events id ((nat_beq_iff event.session_id id).1 mine),
            λ other. ap (sort_by greater) (
                filter-append (of_session id) events (event ∷ [])
                ∙ ground (
                  arith,
                  nat_beq_iff event.session_id id,
                  append-nil (filter (of_session id) events),
                )),
          ),
  )
