-- ===== src/Rl/Store/Postgres/Table.antt =====
-- A concrete table on which the store in PostgreSQL (controller/src/rl_feedback_loop/store.rs)
-- runs: the rows, and a clock that gives each new row its time. It meets the laws.
use mathlib.Core.Path.{subst}
use mathlib.Core.List.{Perm}
use mathlib.Core.List.Perm
use pokemon_rs.Prelude.{
  ℕ, ◌+◌, ◌≡◌, refl, inl, inr, Bool, false, ◌||◌, List, [], ◌∷◌, arith, if◌then◌else◌, Bool-cases,
  filter, Text, codes, ◌==◌, Result, ok, err, nat_eq,
}
use pokemon_rs.Prelude.Sort.{sort_by, Sorted, sort_by-perm, sort_by-Sorted}
use pokemon_rs.Api.{Uuid}
use pokemon_rs.Json.Plain.{millis-IsChronological, millis}
use pokemon_rs.Rl.Store.Postgres.{Row, Database}
use pokemon_rs.Rl.Store.Postgres.Laws.{IsTable, of_session, later_row}

module _ {F J : Type 0} where
  abbrev has_id : Uuid → List (Row F J ℕ) → Bool
  has_id id [] = false
  has_id id (r ∷ rs) = (r.id == id) || has_id id rs

  abbrev add_row :
      Row F J ℕ → ℕ × List (Row F J ℕ) → (ℕ × List (Row F J ℕ)) × Result Text (Unit {0})
  add_row r (now, rs) =
      if has_id r.id rs
      then ((now, rs), err (codes "duplicate key value violates unique constraint"))
      else ((now + 1, r ∷ rs), ok tt)

  abbrev pub rows : ℕ × List (Row F J ℕ) → List (Row F J ℕ)
  rows d = d.1

  abbrev pub table : Database F J ℕ (ℕ × List (Row F J ℕ))
  table = record {
    insert_row = λ id session_id state action reward next_state done d.
        add_row
          (record {
            id = id;
            session_id = session_id;
            state = state;
            action = action;
            reward = reward;
            next_state = next_state;
            done = done;
            created_at = d.0;
          })
          d;
    select_rows = λ id d. (d, ok (sort_by later_row (filter (of_session id) d.1)));
  }

  added :
      (r : Row F J ℕ) (d : ℕ × List (Row F J ℕ))
      → (add_row r d).1 ≡ ok tt
      → Perm (rows (add_row r d).0) (r ∷ rows d)
  added r d h = elim (Bool-cases (has_id r.id d.1)) [
    | inl dup ↦ absurd (ground (arith, dup))
    | inr new ↦ rw new (Perm.refl (r ∷ rows d))
  ]

  selected :
      (id : Uuid) (d : ℕ × List (Row F J ℕ)) (rs : List (Row F J ℕ))
      → (table.select_rows id d).1 ≡ ok rs
      → Perm rs (filter (of_session id) (rows d)) × Sorted later_row rs
  selected id d rs h =
      let same : sort_by later_row (filter (of_session id) d.1) ≡ rs = ground arith in
      let laws = millis-IsChronological in
      subst (λ ys. Perm ys (filter (of_session id) (rows d)) × Sorted later_row ys) same
        (
          sort_by-perm later_row (filter (of_session id) d.1),
          sort_by-Sorted later_row (λ a b. laws.later_asym a.created_at b.created_at)
              (λ a b c. laws.later_trans a.created_at b.created_at c.created_at)
              (filter (of_session id) d.1),
        )

  pub table-IsTable : IsTable table rows
  table-IsTable = record {
    insert_failed = λ id session_id state action reward next_state done d e h. ground arith;
    insert_executed = λ id session_id state action reward next_state done d h. (
      d.0,
      added
          (record {
            id = id;
            session_id = session_id;
            state = state;
            action = action;
            reward = reward;
            next_state = next_state;
            done = done;
            created_at = d.0;
          })
          d h,
    );
    select_unchanged = λ id d. refl;
    select_executed = selected;
  }
