-- ===== src/Rl/Store/Memory.antt =====
-- The replay buffer in memory (`InMemoryStore` of controller/src/rl_feedback_loop/store.rs) keeps
-- the promises of the trait.
use mathlib.Core.Path.{subst}
use mathlib.Core.List.{append-nil}
use mathlib.Mathlib.Data.Multiset.Defs.{Multiset, of_list, coe-eq-coe}
use mathlib.Mathlib.Data.Multiset.ZeroCons.{cons}
use pokemon_rs.Prelude.{
  ◌≡◌, refl, sym, ap, ◌∙◌, inl, inr, some, [], ◌∷◌, ◌++◌, arith, if◌then◌else◌, nat_beq_iff,
  Bool-cases, filter, filter-append, ◌==◌, ok, nat_eq,
}
use pokemon_rs.Prelude.Map.{get, insert, get-insert}
use pokemon_rs.Prelude.Sort.{sort_by-perm}
use pokemon_rs.Prelude.Perms.{perm_snoc}
use pokemon_rs.Api.{Uuid}
use pokemon_rs.Json.{DateTime, IsChronological}
use pokemon_rs.Rl.Store.{
  Experience, InMemoryStore, insert_experience, is_session_valid, list_by_session, or_empty,
  greater, in_memory_store,
}
use pokemon_rs.Rl.Store.Contract.{IsExperienceStore, untimed, InTime}
use pokemon_rs.Rl.Store.Listing.{list_by_session-InTime, list_by_session-untimed}

-- What the map holds for a session.
abbrev pub stored : {F J T : Type 0} → InMemoryStore F J T → Uuid → Multiset (Experience F J T)
stored m id = of_list (or_empty (get id m))

module _ {F J T : Type 0} ⦃d : DateTime T⦄ where
  -- What is listed is what is stored, in some order.
  stored-list_by_session :
      (m : InMemoryStore F J T) (id : Uuid) → of_list (list_by_session id m) ≡ stored m id
  unfolding list_by_session
  stored-list_by_session m id = coe-eq-coe.1 (sort_by-perm greater (or_empty (get id m)))

  -- What the map holds after an insertion.
  looked_up :
      (e : Experience F J T) (m : InMemoryStore F J T) (id : Uuid)
      → (insert_experience e m).1 ≡ ok tt
      → or_empty (get id (insert_experience e m).0)
        ≡ (if e.session_id == id then or_empty (get id m) ++ (e ∷ []) else or_empty (get id m))
  unfolding insert_experience is_session_valid
  looked_up e m id accepted =
      let old = or_empty (get e.session_id m) in
      let added : (insert_experience e m).0 ≡ insert e.session_id (old ++ (e ∷ [])) m =
        ground arith in
      let looked = get-insert e.session_id id (old ++ (e ∷ [])) m in
      elim (Bool-cases (e.session_id == id)) [
        | inl mine ↦
            let at = (nat_beq_iff e.session_id id).0 mine in
            let found : get id (insert e.session_id (old ++ (e ∷ [])) m)
                ≡ some (or_empty (get id m) ++ (e ∷ [])) =
              ground (arith, looked, mine, ap (λ k. get k m) at) in
            rw mine (ap (λ k. or_empty (get id k)) added ∙ ap or_empty found)
        | inr foreign ↦
            let found : get id (insert e.session_id (old ++ (e ∷ [])) m) ≡ get id m =
              ground (arith, looked, foreign) in
            rw foreign (ap (λ k. or_empty (get id k)) added ∙ ap or_empty found)
      ]

  stored-insert_experience :
      (e : Experience F J T) (m : InMemoryStore F J T) (id : Uuid)
      → (insert_experience e m).1 ≡ ok tt
      → stored (insert_experience e m).0 id
        ≡ (if e.session_id == id then cons e (stored m id) else stored m id)
  stored-insert_experience e m id accepted =
      let held = ap of_list (looked_up e m id accepted) in
      elim (Bool-cases (e.session_id == id)) [
        | inl mine ↦
            let here = rw mine at held in
            rw mine (here ∙ coe-eq-coe.1 (perm_snoc (or_empty (get id m)) e))
        | inr foreign ↦ let here = rw foreign at held in rw foreign here
      ]

  untimed-insert_experience :
      IsChronological T
      → (e : Experience F J T) (m : InMemoryStore F J T) (id : Uuid)
      → (insert_experience e m).1 ≡ ok tt
      → filter untimed (list_by_session id (insert_experience e m).0)
        ≡ filter untimed (list_by_session id m)
          ++ (if e.session_id == id then filter untimed (e ∷ []) else [])
  untimed-insert_experience laws e m id accepted =
      let old = or_empty (get id m) in
      let held =
        list_by_session-untimed laws e id (insert_experience e m).0
        ∙ ap (filter untimed) (looked_up e m id accepted) in
      let before = sym (list_by_session-untimed laws e id m) in
      elim (Bool-cases (e.session_id == id)) [
        | inl mine ↦
            let here = rw mine at held in
            rw mine (
              here
              ∙ filter-append untimed old (e ∷ [])
              ∙ ap (λ xs. xs ++ filter untimed (e ∷ [])) before)
        | inr foreign ↦
            let here = rw foreign at held in
            rw foreign (here ∙ before ∙ sym (append-nil (filter untimed (list_by_session id m))))
      ]

  -- If times are totally ordered, the store in memory is an experience store: it keeps a bag of
  -- experiences for each session, refuses the nil session, adds any other experience to its
  -- session's bag, and lists the bag in the order of the times, and those without a time last and
  -- in the order of their insertion.
  pub in_memory_store-IsExperienceStore :
      IsChronological T → (s : InMemoryStore F J T) → IsExperienceStore in_memory_store stored s
  unfolding insert_experience is_session_valid
  in_memory_store-IsExperienceStore laws s = record {
    insert_nil = λ e nil. ground (arith, nat_beq_iff e.session_id 0);
    insert_failed = λ e x id h. ground arith;
    insert_stored = λ e h. (
      e.created_at,
      λ id. stored-insert_experience e s id h,
      λ id xs ys before after.
          let was : list_by_session id s ≡ xs = ground arith in
          let is : list_by_session id (insert_experience e s).0 ≡ ys = ground arith in
          let added = if e.session_id == id then filter untimed (e ∷ []) else [] in
          sym (ap (filter untimed) is)
          ∙ untimed-insert_experience laws e s id h
          ∙ ap (λ zs. filter untimed zs ++ added) was,
    );
    view-list_by_session = λ id j. refl;
    list_by_session_lem = λ id xs h.
        let same : list_by_session id s ≡ xs = ground arith in
        subst (λ ys. (of_list ys ≡ stored s id) × InTime ys) same
          (stored-list_by_session s id, list_by_session-InTime laws id s);
  }
