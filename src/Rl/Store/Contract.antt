-- ===== src/Rl/Store/Contract.antt =====
-- What `ExperienceStore` (controller/src/rl_feedback_loop/store.rs) promises its clients. A store
-- is seen as a bag of experiences for each session: the bag forgets the order in which they came.
use mathlib.Mathlib.Data.Multiset.Defs.{Multiset, of_list}
use mathlib.Mathlib.Data.Multiset.ZeroCons.{cons}
use pokemon_rs.Prelude.{
  ◌≡◌, Bool, true, false, Option, none, some, List, [], ◌∷◌, ◌++◌, if◌then◌else◌, filter, All, ◌==◌,
  ok, err, nat_eq,
}
use pokemon_rs.Api.{Uuid, nil_uuid}
use pokemon_rs.Json.{DateTime}
use pokemon_rs.Rl.Store.{Experience, StoreError, invalid_session_id, ExperienceStore}

-- The experience under the time that the store gives it.
abbrev pub stamped : {F J T : Type 0} → Option T → Experience F J T → Experience F J T
stamped t e = record e { created_at = t }

-- The experience has no time.
abbrev pub untimed : {F J T : Type 0} → Experience F J T → Bool
untimed e = elim e.created_at [ none ↦ true | some t ↦ false ]

module _ {T : Type 0} ⦃d : DateTime T⦄ where
  -- The first time is not after the second; an experience without a time comes last.
  abbrev pub NotAfter : Option T → Option T → Type 0
  NotAfter (some a) (some b) = d.later a b ≡ false
  NotAfter (some a) none = Unit
  NotAfter none (some b) = true ≡ false
  NotAfter none none = Unit

  abbrev pub InTime : {F J : Type 0} → List (Experience F J T) → Type 0
  InTime [] = Unit
  InTime (x ∷ xs) = All (λ y. NotAfter x.created_at y.created_at) xs × InTime xs

module _ {F J T S : Type 0} ⦃d : DateTime T⦄ where
  -- The contract in the state `s`: an experience that is stored without a time is listed, if it is
  -- listed, after all others that have none.
  pub record IsExperienceStore (store : ExperienceStore F J T S)
      (view : S → Uuid → Multiset (Experience F J T)) (s : S) : Type 0 where
    pub insert_nil :
        (e : Experience F J T)
        → e.session_id ≡ nil_uuid
        → store.insert_experience e s ≡ (s, err invalid_session_id)
    pub insert_failed :
        (e : Experience F J T) (x : StoreError) (id : Uuid)
        → (store.insert_experience e s).1 ≡ err x
        → view (store.insert_experience e s).0 id ≡ view s id
    pub insert_stored :
        (e : Experience F J T)
        → (store.insert_experience e s).1 ≡ ok tt
        → (t : Option T) × ((id : Uuid)
            → view (store.insert_experience e s).0 id
              ≡ (if e.session_id == id then cons (stamped t e) (view s id) else view s id))
          × ((id : Uuid) (xs ys : List (Experience F J T))
              → (store.list_by_session id s).1 ≡ ok xs
              → (store.list_by_session id (store.insert_experience e s).0).1 ≡ ok ys
              → filter untimed ys
                ≡ filter untimed xs
                  ++ (if e.session_id == id then filter untimed (stamped t e ∷ []) else []))
    pub view-list_by_session : (id j : Uuid) → view (store.list_by_session id s).0 j ≡ view s j
    pub list_by_session_lem :
        (id : Uuid) (xs : List (Experience F J T))
        → (store.list_by_session id s).1 ≡ ok xs
        → (of_list xs ≡ view s id) × InTime xs
