-- ===== src/Cli/Replays.antt =====
-- What the store that cli/src/main.rs has opened lists of the experiences
-- (controller/src/rl_feedback_loop/store.rs) that it was given.
use mathlib.Core.List.{Perm}
use mathlib.Mathlib.Data.Multiset.Defs.{of_list}
use pokemon_rs.Prelude.{
  ◌≡◌, refl, ap, ◌≢◌, ◌⊎◌, inl, inr, not, List, [], ◌∷◌, map, Bool-cases, filter, All, ◌==◌, ok,
  nat_eq,
}
use pokemon_rs.Api.{Uuid, nil_uuid}
use pokemon_rs.Json.{DateTime, IsChronological}
use pokemon_rs.Rl.Store.{Experience, InMemoryStore, insert_experience, is_session_valid}
use pokemon_rs.Rl.Store.Contract.{InTime}
use pokemon_rs.Rl.Store.Histories.{insert_all, timeless, of_session, list_by_session-insert_all}
use pokemon_rs.Rl.Store.Postgres.{Row, Database}
use pokemon_rs.Rl.Store.Postgres.Laws.{IsTable}
use pokemon_rs.Cli.{RlStore, postgres, in_memory, dyn_store}
use pokemon_rs.Cli.Start.{held, dyn_store-IsExperienceStore}

module _ {F J T D : Type 0} ⦃d : DateTime T⦄ where
  -- The store in memory refuses nothing but the nil session.
  accepted-in_memory :
      (db : Database F J T D) (es : List (Experience F J T)) (m : InMemoryStore F J T)
      → (insert_all (dyn_store db) es (in_memory m)).1
        ≡ filter (λ (e : Experience F J T). not (e.session_id == nil_uuid)) es
  unfolding insert_experience is_session_valid
  accepted-in_memory db [] m = refl
  accepted-in_memory db (e ∷ es) m =
      let later = accepted-in_memory db es (insert_experience e m).0 in
      elim (Bool-cases (e.session_id == nil_uuid)) [
        | inl nil ↦ rw nil (rw nil at later)
        | inr valid ↦ rw valid (ap (λ xs. e ∷ xs) (rw valid at later))
      ]

  accepted-dyn_store :
      (db : Database F J T D) (es : List (Experience F J T)) (s : RlStore F J T D)
      → ((insert_all (dyn_store db) es s).1
          ≡ filter (λ (e : Experience F J T). not (e.session_id == nil_uuid)) es)
        ⊎ ((p : D) × (s ≡ postgres p))
  accepted-dyn_store db es (postgres p) = inr (p, refl)
  accepted-dyn_store db es (in_memory m) = inl (accepted-in_memory db es m)

  -- If times are totally ordered and the database executes its statements as documented: whichever
  -- store the process has opened, if it holds nothing for a session and is then given experiences
  -- one after the other, it lists, when it lists, exactly those of the session that it accepted,
  -- each as often as it was accepted and but for the time as it was given, the earlier before the
  -- later and those without a time last. It accepted none with the nil session and, unless it is
  -- the one in PostgreSQL, all others.
  pub dyn_store-insert_all :
      (db : Database F J T D) (rows : D → List (Row F J T))
      → IsChronological T
      → IsTable db rows
      → (id : Uuid) (es : List (Experience F J T)) (s : RlStore F J T D)
        (xs : List (Experience F J T))
      → held rows s id ≡ of_list []
      → let store = dyn_store db in
        let (s', accepted) = insert_all store es s in
        (store.list_by_session id s').1 ≡ ok xs
        → Perm (map timeless xs) (map timeless (filter (of_session id) accepted))
          × InTime xs
          × All (λ (e : Experience F J T). e.session_id ≢ nil_uuid) accepted
          × ((accepted ≡ filter (λ (e : Experience F J T). not (e.session_id == nil_uuid)) es)
              ⊎ ((p : D) × (s ≡ postgres p)))
  dyn_store-insert_all db rows times table id es s xs empty listed =
      let (kept, order, valid) =
        list_by_session-insert_all (dyn_store db) (held rows)
          (dyn_store-IsExperienceStore db rows times table) id es s xs empty listed in
      (kept, order, valid, accepted-dyn_store db es s)
