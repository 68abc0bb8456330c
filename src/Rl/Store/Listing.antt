-- ===== src/Rl/Store/Listing.antt =====
-- What the in-memory replay buffer (controller/src/rl_feedback_loop/store.rs) lists.
use mathlib.Core.List.{Perm}
use pokemon_rs.Prelude.{
  ◌≡◌, refl, sym, ap, ◌∙◌, ◌≢◌, true, false, Option, none, some, List, [], ◌∷◌, ◌++◌, arith,
  nat_beq_iff, filter, All-map, ok, err, nat_eq,
}
use pokemon_rs.Prelude.Map
use pokemon_rs.Prelude.Sort.{sort_by, Sorted, ties, sort_by-Sorted, sort_by_stable, sort_by-snoc}
use pokemon_rs.Api.{Uuid, nil_uuid}
use pokemon_rs.Json.{DateTime, IsChronological}
use pokemon_rs.Rl.Store.{
  Experience, InMemoryStore, invalid_session_id, is_session_valid, insert_experience, or_empty,
  greater, list_by_session, later_option,
}
use pokemon_rs.Rl.Store.Contract.{untimed, NotAfter, InTime}

greater-NotAfter :
    {T : Type 0} ⦃d : DateTime T⦄ (a b : Option T) → later_option a b ≡ false → NotAfter a b
greater-NotAfter (some a) (some b) h = h
greater-NotAfter (some a) none h = tt
greater-NotAfter none (some b) h = h
greater-NotAfter none none h = tt

module _ {F J T : Type 0} ⦃d : DateTime T⦄ where
  -- An experience with the nil session is refused and nothing is stored. Any other is added to what
  -- is listed for its session, and to no other session's list.
  pub list_by_session-insert_experience :
      (e : Experience F J T) (m : InMemoryStore F J T) (id : Uuid)
      → let (m', r) = insert_experience e m in
        (e.session_id ≡ nil_uuid → (r ≡ err invalid_session_id) × (m' ≡ m))
        × (e.session_id ≢ nil_uuid
            → (r ≡ ok tt)
              × (e.session_id ≡ id → Perm (list_by_session id m') (e ∷ list_by_session id m))
              × (e.session_id ≢ id → list_by_session id m' ≡ list_by_session id m))
  unfolding insert_experience is_session_valid list_by_session
  list_by_session-insert_experience e m id = (
    λ nil. ground (arith, nat_beq_iff e.session_id nil_uuid),
    λ valid.
        let accepted : insert_experience e m
            ≡ (Map.insert e.session_id (or_empty (Map.get e.session_id m) ++ (e ∷ [])) m, ok tt) =
          ground (arith, nat_beq_iff e.session_id nil_uuid) in
        rw accepted (
          refl,
          λ mine.
              let found : Map.get id
                    (Map.insert e.session_id (or_empty (Map.get e.session_id m) ++ (e ∷ [])) m)
                  ≡ some (or_empty (Map.get id m) ++ (e ∷ [])) =
                ground (
                  arith,
                  nat_beq_iff e.session_id id,
                  Map.get-insert e.session_id id (or_empty (Map.get e.session_id m) ++ (e ∷ [])) m,
                  ap (λ k. Map.get k m) mine,
                ) in
              rw found (sort_by-snoc greater (or_empty (Map.get id m)) e),
          λ other.
              let found : Map.get id
                    (Map.insert e.session_id (or_empty (Map.get e.session_id m) ++ (e ∷ [])) m)
                  ≡ Map.get id m =
                ground (
                  arith,
                  nat_beq_iff e.session_id id,
                  Map.get-insert e.session_id id (or_empty (Map.get e.session_id m) ++ (e ∷ [])) m,
                ) in
              ap (λ old. sort_by greater (or_empty old)) found,
        ),
  )

  InTime-Sorted : (xs : List (Experience F J T)) → Sorted greater xs → InTime xs
  InTime-Sorted [] s = tt
  InTime-Sorted (x ∷ xs) (a, s) = (
    All-map (λ y. greater x y ≡ false) (λ y. NotAfter x.created_at y.created_at) xs
        (λ y. greater-NotAfter x.created_at y.created_at) a,
    InTime-Sorted xs s,
  )

  -- An experience ties with one that has no time exactly when it has none.
  ties-untimed :
      (e x : Experience F J T) (t : Option T)
      → x.created_at ≡ t
      → ties greater (record e { created_at = none }) x ≡ untimed x
  ties-untimed e x none h = rw h refl
  ties-untimed e x (some t) h = rw h refl

  filter-untimed :
      (e : Experience F J T) (xs : List (Experience F J T))
      → filter (ties greater (record e { created_at = none })) xs ≡ filter untimed xs
  filter-untimed e [] = refl
  filter-untimed e (x ∷ xs) =
      ground (arith, ties-untimed e x x.created_at refl, filter-untimed e xs)

  module _ (laws : IsChronological T) where
    -- If times are totally ordered, a session's experiences are listed in ascending order of their
    -- times, those without a time last, and experiences that tie in the order in which they were
    -- stored.
    pub list_by_session-Sorted :
        (id : Uuid) (m : InMemoryStore F J T)
        → let out = list_by_session id m in
          Sorted greater out
          × ((e : Experience F J T)
              → filter (ties greater e) out ≡ filter (ties greater e) (or_empty (Map.get id m)))
    unfolding list_by_session
    list_by_session-Sorted id m = (
      sort_by-Sorted greater asym trans (or_empty (Map.get id m)),
      λ e. sort_by_stable greater asym trans e (or_empty (Map.get id m)),
    )
      where
        asym : (a b : Experience F J T) → greater a b ≡ true → greater b a ≡ false
        asym a b h = grind (arith, laws.later_asym)

        trans :
            (a b c : Experience F J T)
            → greater a b ≡ false
            → greater b c ≡ false
            → greater a c ≡ false
        trans a b c h k = grind (arith, laws.later_trans)

    -- A listing in the words of the contract.
    pub list_by_session-InTime :
        (id : Uuid) (m : InMemoryStore F J T) → InTime (list_by_session id m)
    list_by_session-InTime id m =
        InTime-Sorted (list_by_session id m) (list_by_session-Sorted id m).0

    -- The experiences without a time are listed as they were stored.
    pub list_by_session-untimed :
        (e : Experience F J T) (id : Uuid) (m : InMemoryStore F J T)
        → filter untimed (list_by_session id m) ≡ filter untimed (or_empty (Map.get id m))
    list_by_session-untimed e id m =
        sym (filter-untimed e (list_by_session id m))
        ∙ (list_by_session-Sorted id m).1 (record e { created_at = none })
        ∙ filter-untimed e (or_empty (Map.get id m))
