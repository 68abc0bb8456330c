-- ===== src/Rl/Store/Histories.antt =====
-- What any store that keeps the contract of `ExperienceStore`
-- (controller/src/rl_feedback_loop/store.rs) lists after a sequence of insertions.
use mathlib.Core.List.{Perm}
use mathlib.Mathlib.Data.Multiset.Defs.{Multiset, of_list, coe-eq-coe}
use mathlib.Mathlib.Data.Multiset.ZeroCons.{cons}
use mathlib.Mathlib.Data.Multiset.MapFold
use mathlib.Mathlib.Data.Multiset.AddSub.{add, add_comm, add-zero, add-cons, cons-add}
use pokemon_rs.Prelude.{
  ◌≡◌, refl, sym, ap, ◌∙◌, ◌≢◌, inl, inr, Bool, none, List, [], ◌∷◌, map, Bool-cases, filter, All,
  ◌==◌, Result, ok, err, Result-cases, nat_eq,
}
use pokemon_rs.Api.{Uuid, nil_uuid}
use pokemon_rs.Json.{DateTime}
use pokemon_rs.Rl.Store.{Experience, StoreError, ExperienceStore}
use pokemon_rs.Rl.Store.Contract.{IsExperienceStore, stamped, InTime}

module _ {F J T S : Type 0} (store : ExperienceStore F J T S) where
  abbrev keep_if_ok :
      Experience F J T
      → Result StoreError (Unit {0})
      → List (Experience F J T)
      → List (Experience F J T)
  keep_if_ok e (ok _) es = e ∷ es
  keep_if_ok e (err _) es = es

  -- The store after the insertions, and the experiences that it accepted.
  abbrev pub insert_all : List (Experience F J T) → S → S × List (Experience F J T)
  insert_all [] s = (s, [])
  insert_all (e ∷ es) s =
      let (s', r) = store.insert_experience e s in
      let (s'', accepted) = insert_all es s' in (s'', keep_if_ok e r accepted)

module _ {F J T : Type 0} where
  -- The experience without its time.
  abbrev pub timeless : Experience F J T → Experience F J T
  timeless e = stamped none e

  abbrev pub of_session : Uuid → Experience F J T → Bool
  of_session id e = e.session_id == id

  abbrev bag : List (Experience F J T) → Multiset (Experience F J T)
  bag xs = of_list (map timeless xs)

module _ {F J T S : Type 0} ⦃d : DateTime T⦄ (store : ExperienceStore F J T S)
    (view : S → Uuid → Multiset (Experience F J T))
    (laws : (s : S) → IsExperienceStore store view s) where
  insert_all-bag :
      (id : Uuid) (es : List (Experience F J T)) (s : S)
      → let (s', accepted) = insert_all store es s in
        MapFold.map timeless (view s' id)
        ≡ add (bag (filter (of_session id) accepted)) (MapFold.map timeless (view s id))
  insert_all-bag id [] s = sym (
      add_comm (bag []) (MapFold.map timeless (view s id))
      ∙ add-zero (MapFold.map timeless (view s id)))
  insert_all-bag id (e ∷ es) s =
      let s' = (store.insert_experience e s).0 in
      let accepted = (insert_all store es s').1 in
      let rest = bag (filter (of_session id) accepted) in
      let old = MapFold.map timeless (view s id) in
      let later = insert_all-bag id es s' in
      elim (Result-cases (store.insert_experience e s).1) [
        | inl (u, stored_) ↦
            let (t, seen, order) = (laws s).insert_stored e stored_ in
            elim (Bool-cases (e.session_id == id)) [
              | inl mine ↦
                  let new : view s' id ≡ cons (stamped t e) (view s id) = seen id ∙ rw mine refl in
                  rw (stored_, mine)
                    (later
                      ∙ ap (λ m. add rest (MapFold.map timeless m)) new
                      ∙ ap (add rest) (MapFold.map-cons timeless (stamped t e) (view s id))
                      ∙ add-cons (timeless e) rest old
                      ∙ sym (cons-add (timeless e) rest old))
              | inr foreign ↦
                  let same : view s' id ≡ view s id = seen id ∙ rw foreign refl in
                  rw (stored_, foreign) (later ∙ ap (λ m. add rest (MapFold.map timeless m)) same)
            ]
        | inr (x, refused) ↦ rw refused (
            later
            ∙ ap (λ m. add rest (MapFold.map timeless m)) ((laws s).insert_failed e x id refused))
      ]

  accepted_valid :
      (es : List (Experience F J T)) (s : S)
      → All (λ (e : Experience F J T). e.session_id ≢ nil_uuid) (insert_all store es s).1
  accepted_valid [] s = tt
  accepted_valid (e ∷ es) s =
      let later = accepted_valid es (store.insert_experience e s).0 in
      elim (Result-cases (store.insert_experience e s).1) [
        | inl (u, stored_) ↦
            rw stored_ ((λ nil. let k = ap (λ p. p.1) ((laws s).insert_nil e nil) in cc), later)
        | inr (x, refused) ↦ rw refused later
      ]

  -- A store that keeps the contract, that holds nothing for a session, and that is then given
  -- experiences one after the other lists, when it lists, exactly those of the session that it
  -- accepted, each as often as it was accepted and but for the time as it was given, in the order
  -- of their times; and it accepted none with the nil session.
  pub list_by_session-insert_all :
      (id : Uuid) (es : List (Experience F J T)) (s : S) (xs : List (Experience F J T))
      → view s id ≡ of_list []
      → let (s', accepted) = insert_all store es s in
        (store.list_by_session id s').1 ≡ ok xs
        → Perm (map timeless xs) (map timeless (filter (of_session id) accepted))
          × InTime xs
          × All (λ (e : Experience F J T). e.session_id ≢ nil_uuid) accepted
  list_by_session-insert_all id es s xs empty listed =
      let (s', accepted) = insert_all store es s in
      let (held, sorted) = (laws s').list_by_session_lem id xs listed in
      let kept = bag (filter (of_session id) accepted) in
      (
        coe-eq-coe.0 (
            ap (MapFold.map timeless) held
            ∙ insert_all-bag id es s
            ∙ ap (λ m. add kept (MapFold.map timeless m)) empty
            ∙ add-zero kept),
        sorted,
        accepted_valid es s,
      )
