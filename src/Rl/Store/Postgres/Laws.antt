-- ===== src/Rl/Store/Postgres/Laws.antt =====
-- The replay buffer in PostgreSQL (controller/src/rl_feedback_loop/store.rs) keeps the promises of
-- the trait, if the database does what its manual says of the two statements.
use mathlib.Core.Path.{subst}
use mathlib.Core.List.{Perm}
use mathlib.Core.List.Perm
use mathlib.Mathlib.Data.Multiset.Defs.{Multiset, of_list, coe-eq-coe}
use mathlib.Mathlib.Data.Multiset.ZeroCons.{cons}
use pokemon_rs.Prelude.{
  ◌≡◌, refl, sym, ap, ◌∙◌, inl, inr, Bool, false, some, List, [], ◌∷◌, map, arith, if◌then◌else◌,
  nat_beq_iff, Bool-cases, filter, All, Text, ◌==◌, ok, err, Result-cases, nat_eq,
}
use pokemon_rs.Prelude.Sort.{Sorted}
use pokemon_rs.Prelude.Perms.{filter-Perm}
use pokemon_rs.Api.{Uuid}
use pokemon_rs.Json.{DateTime}
use pokemon_rs.Rl.Store.{Experience, is_session_valid, StoreError}
use pokemon_rs.Rl.Store.Contract.{IsExperienceStore, stamped, untimed, NotAfter, InTime}
use pokemon_rs.Rl.Store.Postgres.{
  Row, Database, of_row, postgres_insert_experience, postgres_list_by_session, postgres_rl_store,
}

abbrev pub of_session : {F J T : Type 0} → Uuid → Row F J T → Bool
of_session id r = r.session_id == id

abbrev pub later_row : {F J T : Type 0} ⦃d : DateTime T⦄ → Row F J T → Row F J T → Bool
later_row ⦃d⦄ a b = d.later a.created_at b.created_at

module _ {F J T : Type 0} ⦃t : DateTime T⦄ where
  All-of_row :
      (r : Row F J T) (rs : List (Row F J T))
      → All (λ q. later_row r q ≡ false) rs
      → All (λ e. NotAfter (of_row r).created_at e.created_at) (map of_row rs)
  unfolding of_row
  All-of_row r [] a = tt
  All-of_row r (q ∷ rs) (h, a) = (h, All-of_row r rs a)

  InTime-of_row : (rs : List (Row F J T)) → Sorted later_row rs → InTime (map of_row rs)
  InTime-of_row [] s = tt
  InTime-of_row (r ∷ rs) (a, s) = (All-of_row r rs a, InTime-of_row rs s)

timed-of_row : {F J T : Type 0} (rs : List (Row F J T)) → filter untimed (map of_row rs) ≡ []
unfolding of_row
timed-of_row [] = refl
timed-of_row (r ∷ rs) = timed-of_row rs

-- Every row has a time.
all_timed :
    {F J T D : Type 0} (db : Database F J T D) (id : Uuid) (s : D) (xs : List (Experience F J T))
    → (postgres_list_by_session db id s).1 ≡ ok xs
    → filter untimed xs ≡ []
unfolding postgres_list_by_session
all_timed db id s xs h = elim (Result-cases (db.select_rows id s).1) [
  | inl (rs, e) ↦
      let listed : map of_row rs ≡ xs = ground arith in
      sym (ap (filter untimed) listed) ∙ timed-of_row rs
  | inr (x, e) ↦ absurd (ground arith)
]

-- What the table holds for a session.
abbrev pub table_view :
    {F J T D : Type 0} → (D → List (Row F J T)) → D → Uuid → Multiset (Experience F J T)
table_view rows d id = of_list (map of_row (filter (of_session id) (rows d)))

module _ {F J T D : Type 0} ⦃t : DateTime T⦄ where
  -- `rows d` are the rows of the table in the database's state `d`.
  pub record IsTable (db : Database F J T D) (rows : D → List (Row F J T)) : Type 0 where
    -- A statement that fails changes no row.
    pub insert_failed :
        (id session_id : Uuid) (state action : J) (reward : F) (next_state : J) (done : Bool)
        (d : D) (e : Text)
        → (db.insert_row id session_id state action reward next_state done d).1 ≡ err e
        → rows (db.insert_row id session_id state action reward next_state done d).0 ≡ rows d
    -- One that succeeds adds a row, whose `created_at` is its default.
    pub insert_executed :
        (id session_id : Uuid) (state action : J) (reward : F) (next_state : J) (done : Bool)
        (d : D)
        → (db.insert_row id session_id state action reward next_state done d).1 ≡ ok tt
        → (now : T) × Perm
            (rows (db.insert_row id session_id state action reward next_state done d).0)
            (record {
              id = id;
              session_id = session_id;
              state = state;
              action = action;
              reward = reward;
              next_state = next_state;
              done = done;
              created_at = now;
            }
              ∷ rows d)
    -- A query reads, and returns the rows that its condition selects, in its order.
    pub select_unchanged : (id : Uuid) (d : D) → rows (db.select_rows id d).0 ≡ rows d
    pub select_executed :
        (id : Uuid) (d : D) (rs : List (Row F J T))
        → (db.select_rows id d).1 ≡ ok rs
        → Perm rs (filter (of_session id) (rows d)) × Sorted later_row rs

  -- An insertion that succeeds is a statement that succeeded, of a session other than nil.
  insert_granted :
      (db : Database F J T D) (e : Experience F J T) (d : D)
      → (postgres_insert_experience db e d).1 ≡ ok tt
      → let run = db.insert_row e.id e.session_id e.state e.action e.reward e.next_state e.done d in
        (run.1 ≡ ok tt) × ((postgres_insert_experience db e d).0 ≡ run.0)
  unfolding postgres_insert_experience is_session_valid
  insert_granted db e d h =
      let run = db.insert_row e.id e.session_id e.state e.action e.reward e.next_state e.done d in
      elim (Result-cases run.1) [ inl (u, e_) ↦ ground arith | inr (x, e_) ↦ ground arith ]

  table_view-insert :
      (db : Database F J T D) (rows : D → List (Row F J T)) (table : IsTable db rows)
      (e : Experience F J T) (d : D)
      → (postgres_insert_experience db e d).1 ≡ ok tt
      → (now : T) × ((id : Uuid)
          → table_view rows (postgres_insert_experience db e d).0 id ≡ (
              if e.session_id == id
              then cons (stamped (some now) e) (table_view rows d id)
              else table_view rows d id))
  unfolding of_row
  table_view-insert db rows table e d h =
      let (ran, at) = insert_granted db e d h in
      let (now, added) =
        table.insert_executed e.id e.session_id e.state e.action e.reward e.next_state e.done d
          ran in
      (
        now,
        λ id.
            let row : Row F J T = record {
              id = e.id;
              session_id = e.session_id;
              state = e.state;
              action = e.action;
              reward = e.reward;
              next_state = e.next_state;
              done = e.done;
              created_at = now;
            } in
            let moved = coe-eq-coe.1 (Perm.map of_row (filter-Perm (of_session id) added)) in
            elim (Bool-cases (e.session_id == id)) [
              | inl mine ↦
                  let selected : filter (of_session id) (row ∷ rows d)
                      ≡ row ∷ filter (of_session id) (rows d) =
                    ground (arith, mine) in
                  rw (at, mine) (moved ∙ ap (λ rs. of_list (map of_row rs)) selected)
              | inr foreign ↦
                  let selected : filter (of_session id) (row ∷ rows d)
                      ≡ filter (of_session id) (rows d) =
                    ground (arith, foreign) in
                  rw (at, foreign) (moved ∙ ap (λ rs. of_list (map of_row rs)) selected)
            ],
      )

  insert_refused :
      (db : Database F J T D) (rows : D → List (Row F J T)) (table : IsTable db rows)
      (e : Experience F J T) (d : D) (x : StoreError)
      → (postgres_insert_experience db e d).1 ≡ err x
      → rows (postgres_insert_experience db e d).0 ≡ rows d
  unfolding postgres_insert_experience is_session_valid
  insert_refused db rows table e d x h =
      let run = db.insert_row e.id e.session_id e.state e.action e.reward e.next_state e.done d in
      elim (Result-cases run.1) [
        | inl (u, e_) ↦ ground arith
        | inr (x, e_) ↦ ground (
          arith,
          table.insert_failed e.id e.session_id e.state e.action e.reward e.next_state e.done d x
              e_,
        )
      ]

  -- Over a database that executes its two statements as documented, the store in PostgreSQL is an
  -- experience store: it refuses the nil session, a failed insertion leaves every bag as it was,
  -- one that succeeds adds the experience, under the time of its row, to its session's bag alone,
  -- and a listing is the session's bag in the order of the times.
  pub postgres_rl_store-IsExperienceStore :
      (db : Database F J T D) (rows : D → List (Row F J T))
      → IsTable db rows
      → (s : D) → IsExperienceStore (postgres_rl_store db) (table_view rows) s
  unfolding postgres_insert_experience postgres_list_by_session is_session_valid
  postgres_rl_store-IsExperienceStore db rows table s = record {
    insert_nil = λ e nil. ground (arith, nat_beq_iff e.session_id 0);
    insert_failed = λ e x id h.
        ap (λ rs. of_list (map of_row (filter (of_session id) rs)))
          (insert_refused db rows table e s x h);
    insert_stored = λ e h.
        let (now, seen) = table_view-insert db rows table e s h in
        (
          some now,
          seen,
          λ id xs ys before after.
              let first = all_timed db id s xs before in
              let then_ = all_timed db id (postgres_insert_experience db e s).0 ys after in
              elim (Bool-cases (e.session_id == id)) [
                | inl mine ↦ rw (mine, first, then_) refl
                | inr foreign ↦ rw (foreign, first, then_) refl
              ],
        );
    view-list_by_session = λ id j.
        ap (λ rs. of_list (map of_row (filter (of_session j) rs))) (table.select_unchanged id s);
    list_by_session_lem = λ id xs h. elim (Result-cases (db.select_rows id s).1) [
      | inl (rs, e) ↦
          let (same, sorted) = table.select_executed id s rs e in
          let listed : map of_row rs ≡ xs = ground arith in
          subst (λ ys. (of_list ys ≡ table_view rows s id) × InTime ys) listed
            (coe-eq-coe.1 (Perm.map of_row same), InTime-of_row rs sorted)
      | inr (x, e) ↦ absurd (ground arith)
    ];
  }
