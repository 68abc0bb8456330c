-- ===== src/Cli.antt =====
-- cli/src/main.rs: the process from its environment to the state that the server runs on. The
-- connection pool, the migrations and the table are parameters; reading `.env`, the subscriber for
-- the log and the listener are left out.
pub mod Start
pub mod Replays
use pokemon_rs.Prelude.{Option, none, some, [], Text, Result, ok, err}
use pokemon_rs.Float.{F64}
use pokemon_rs.Json.{DateTime}
use pokemon_rs.Config.{Env, Parsers, from_env, to_app_config}
use pokemon_rs.Rl.Store.{InMemoryStore, in_memory_store, ExperienceStore}
use pokemon_rs.Rl.Store.Postgres.{Database, postgres_rl_store}
use pokemon_rs.AppState.{AppState, with_config}
use pokemon_rs.Server.{unwrap_or}

-- `Cli::Serve`
pub record Serve (Addr : Type 0) : Type 0 where
  pub bind : Option Addr

-- What `Arc<dyn ExperienceStore>` points to.
pub data RlStore (F J T D : Type 0) : Type 0 where
  postgres : D → RlStore F J T D
  in_memory : InMemoryStore F J T → RlStore F J T D

-- The pool's `connect`, and the migrations' `run`, which may fail.
pub record Pool (D : Type 0) : Type 0 where
  pub connect : Text → Result Text D
  pub migrate : D → Result Text D

-- A call of the store behind the pointer.
abbrev pub behind : {S R X : Type 0} → (S → R) → S × X → R × X
behind wrap (s, x) = (wrap s, x)

module _ {F J T D : Type 0} ⦃d : DateTime T⦄ (db : Database F J T D) where
  abbrev pub dyn_store : ExperienceStore F J T (RlStore F J T D)
  dyn_store = record {
    insert_experience = λ e s. elim s [
      | postgres p ↦ behind postgres ((postgres_rl_store db).insert_experience e p)
      | in_memory m ↦ behind in_memory (in_memory_store.insert_experience e m)
    ];
    list_by_session = λ id s. elim s [
      | postgres p ↦ behind postgres ((postgres_rl_store db).list_by_session id p)
      | in_memory m ↦ behind in_memory (in_memory_store.list_by_session id m)
    ];
  }

module _ {F J T D : Type 0} where
  -- The store of experiences; an error ends the process.
  abbrev pub open_store : Pool D → Option Text → Result Text (RlStore F J T D)
  open_store pool none = ok (in_memory [])
  open_store pool (some db_url) = elim (pool.connect db_url) [
    | err e ↦ err e
    | ok p ↦ elim (pool.migrate p) [ err e ↦ err e | ok q ↦ ok (postgres q) ]
  ]

  -- `main` up to `server::serve(addr, state)`.
  unfoldable pub main :
      {Addr : Type 0} ⦃f : F64 F⦄
      → Parsers F Addr
      → Pool D
      → Env
      → Serve Addr
      → Result Text (Addr × AppState F J T (RlStore F J T D))
  main parsers pool env serve =
      let cfg = from_env parsers env in
      let addr = unwrap_or cfg.bind serve.bind in
      let app_config = to_app_config cfg in
      elim (open_store pool cfg.database_url) [
        | err e ↦ err e
        | ok rl_store ↦ ok (addr, with_config rl_store cfg.api_keys app_config)
      ]
