-- ===== src/Server/Ledger/Bags.antt =====
-- What insertions into the event store (controller/src/event_store.rs) and the experience store
-- (controller/src/rl_feedback_loop/store.rs) do to their bags.
use mathlib.Mathlib.Data.Multiset.Defs.{of_list, coe-eq-coe}
use mathlib.Mathlib.Data.Multiset.ZeroCons.{cons}
use pokemon_rs.Prelude.{
  ◌≡◌, sym, ap, ◌∙◌, inl, inr, true, arith, if◌then◌else◌, nat_beq_iff, Bool-cases, ◌==◌, nat_eq,
}
use pokemon_rs.Json.{Json, DateTime}
use pokemon_rs.Api.{Uuid, nil_uuid}
use pokemon_rs.Events
use pokemon_rs.Events.{GameplayEvent, InMemoryEventStore, validate_action_type}
use pokemon_rs.Events.Order.{list_by_session-insert}
use pokemon_rs.Rl.Store
use pokemon_rs.Rl.Store.{Experience, InMemoryStore, insert_experience, in_memory_store}
use pokemon_rs.Rl.Store.Listing.{list_by_session-insert_experience}
use pokemon_rs.Server.Ledger.{set}

module _ {F J T : Type 0} ⦃j : Json J⦄ ⦃d : DateTime T⦄ where
  -- What an accepted event does to the bags.
  pub added_event :
      (e : GameplayEvent F J T) (m : InMemoryEventStore F J T)
      → validate_action_type e.action ≡ true
      → (k : Uuid)
      → of_list (Events.list_by_session k (Events.insert e m).0)
        ≡ set e.session_id
            (cons e (of_list (Events.list_by_session e.session_id m)))
            (λ i. of_list (Events.list_by_session i m))
            k
  added_event e m good k =
      let (stored, mine, others) = (list_by_session-insert e m k).1 good in
      elim (Bool-cases (e.session_id == k)) [
        | inl same ↦
            let at = (nat_beq_iff e.session_id k).0 same in
            rw same (
              coe-eq-coe.1 (mine at)
              ∙ ap (λ i. cons e (of_list (Events.list_by_session i m))) (sym at))
        | inr foreign ↦ rw foreign (ap of_list (others (ground (arith, foreign))))
      ]

module _ {F J T : Type 0} ⦃d : DateTime T⦄ where
  -- What an insertion of an experience does to the bags.
  pub added_experience :
      (e : Experience F J T) (m : InMemoryStore F J T) (k : Uuid)
      → of_list (Store.list_by_session k (insert_experience e m).0)
        ≡ set e.session_id
            (if e.session_id == nil_uuid
              then of_list (Store.list_by_session e.session_id m)
              else cons e (of_list (Store.list_by_session e.session_id m)))
            (λ i. of_list (Store.list_by_session i m))
            k
  added_experience e m k =
      let (refused, accepted) = list_by_session-insert_experience e m k in
      let bag = λ (i : Uuid). of_list (Store.list_by_session i m) in
      elim (Bool-cases (e.session_id == nil_uuid)) [
        | inl nil ↦
            let same = (refused ((nat_beq_iff e.session_id nil_uuid).0 nil)).1 in
            let kept = ap (λ m'. of_list (Store.list_by_session k m')) same in
            elim (Bool-cases (e.session_id == k)) [
              | inl mine ↦
                  rw (nil, mine) (kept ∙ ap bag (sym ((nat_beq_iff e.session_id k).0 mine)))
              | inr foreign ↦ rw (nil, foreign) kept
            ]
        | inr valid ↦
            let (stored, mine_, others) = accepted (ground (arith, valid)) in
            elim (Bool-cases (e.session_id == k)) [
              | inl mine ↦
                  let at = (nat_beq_iff e.session_id k).0 mine in
                  rw (valid, mine) (coe-eq-coe.1 (mine_ at) ∙ ap (λ i. cons e (bag i)) (sym at))
              | inr foreign ↦ rw (valid, foreign) (ap of_list (others (ground (arith, foreign))))
            ]
      ]
