-- ===== src/Rl/Store/Postgres.antt =====
-- The replay buffer in PostgreSQL (`PostgresRlStore` of controller/src/rl_feedback_loop/store.rs).
-- The database is a parameter: its two statements act on a state `D`, and an error comes as its
-- text. The table is that of database/migrations/0005_create_rl_store.sql and 0008.
pub mod Laws
pub mod Table
use pokemon_rs.Prelude.{
  Bool, not, some, List, map, if◌then◌else◌, Text, Result, ok, err, map_err, Method,
}
use pokemon_rs.Api.{Uuid}
use pokemon_rs.Rl.Store.{
  Experience, StoreError, invalid_session_id, other, ExperienceStore, is_session_valid,
}

-- `struct Row`
pub record Row (F J T : Type 0) : Type 0 where
  pub id : Uuid
  pub session_id : Uuid
  pub state : J
  pub action : J
  pub reward : F
  pub next_state : J
  pub done : Bool
  pub created_at : T

pub record Database (F J T D : Type 0) : Type 0 where
  -- INSERT INTO rl_store (id, session_id, state, action, reward, next_state, done) VALUES ($1, ...)
  pub insert_row : Uuid → Uuid → J → J → F → J → Bool → Method D Text (Unit {0})
  -- SELECT ... FROM rl_store WHERE session_id = $1 ORDER BY created_at ASC
  pub select_rows : Uuid → Method D Text (List (Row F J T))

abbrev pub map_ok {ℓ} : {E A B : Type ℓ} → (A → B) → Result E A → Result E B
map_ok f (ok a) = ok (f a)
map_ok f (err e) = err e

module _ {F J T : Type 0} where
  -- The closure of `into_iter().map`.
  unfoldable pub of_row : Row F J T → Experience F J T
  of_row r = record {
    id = r.id;
    session_id = r.session_id;
    state = r.state;
    action = r.action;
    reward = r.reward;
    next_state = r.next_state;
    done = r.done;
    created_at = some r.created_at;
  }

  module _ {D : Type 0} (db : Database F J T D) where
    unfoldable pub postgres_insert_experience : Experience F J T → Method D StoreError (Unit {0})
    postgres_insert_experience e d =
        if not (is_session_valid e)
        then (d, err invalid_session_id)
        else let (d', r) =
            db.insert_row e.id e.session_id e.state e.action e.reward e.next_state e.done d in
          (d', map_err other r)

    unfoldable pub postgres_list_by_session : Uuid → Method D StoreError (List (Experience F J T))
    postgres_list_by_session id d =
        let (d', r) = db.select_rows id d in (d', map_ok (map of_row) (map_err other r))

    abbrev pub postgres_rl_store : ExperienceStore F J T D
    postgres_rl_store = record {
      insert_experience = postgres_insert_experience;
      list_by_session = postgres_list_by_session;
    }
