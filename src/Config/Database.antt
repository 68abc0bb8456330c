-- ===== src/Config/Database.antt =====
-- When a database is configured (cli/src/config.rs: `Config::from_env`).
use pokemon_rs.Prelude.{◌≡◌, refl, ◌≢◌, ◌↔◌, Option, none, some, [], ◌∷◌, arith, Text, codes}
use pokemon_rs.Config.{Env, nonempty, assemble, database_url_of, text_or}

-- The variable has a value that is not empty.
abbrev pub IsGiven : Env → Text → Type 0
IsGiven env name = (v : Text) × (env name ≡ some v) × (v ≢ [])

nonempty-some : {o : Option Text} (v : Text) → o ≡ some v → v ≢ [] → nonempty o ≡ some v
nonempty-some [] e some_ = absurd (some_ refl)
nonempty-some (c ∷ s) e some_ = rw e refl

nonempty-none : (o : Option Text) → nonempty o ≢ none → (v : Text) × (o ≡ some v) × (v ≢ [])
nonempty-none none h = absurd (h refl)
nonempty-none (some []) h = absurd (h refl)
nonempty-none (some (c ∷ s)) h = (c ∷ s, refl, λ e. cc)

nonempty_iff : (env : Env) (name : Text) → (nonempty (env name) ≢ none) ↔ IsGiven env name
nonempty_iff env name =
    (nonempty-none (env name), λ (v, e, some_) h. let k = nonempty-some v e some_ in cc)

assemble_iff :
    (h : Option Text) (port : Text) (u w d : Option Text)
    → (assemble h port u w d ≢ none) ↔ ((h ≢ none) × (u ≢ none) × (w ≢ none) × (d ≢ none))
assemble_iff (some h) port (some u) (some w) (some d) =
    (λ _. (λ e. cc, λ e. cc, λ e. cc, λ e. cc), λ _ e. cc)
assemble_iff none port u w d = (λ h. absurd (h refl), λ q. absurd (q.0 refl))
assemble_iff (some h) port none w d = (λ h. absurd (h refl), λ q. absurd (q.1 refl))
assemble_iff (some h) port (some u) none d = (λ h. absurd (h refl), λ q. absurd (q.2 refl))
assemble_iff (some h) port (some u) (some w) none = (λ h. absurd (h refl), λ q. absurd (q.3 refl))

-- `DATABASE_URL` is used whenever it is set and not empty. Else there is a database exactly when
-- the host, the user, the password and the database are all set and not empty.
pub database_url_of_lem :
    (env : Env)
    → ((v : Text) → env (codes "DATABASE_URL") ≡ some v → v ≢ [] → database_url_of env ≡ some v)
      × (¬ IsGiven env (codes "DATABASE_URL")
          → (database_url_of env ≢ none) ↔ (
              IsGiven env (codes "PGHOST")
              × IsGiven env (codes "PGUSER")
              × IsGiven env (codes "PGPASSWORD")
              × IsGiven env (codes "PGDATABASE")))
unfolding database_url_of
database_url_of_lem env = (
  λ v e some_. rw (nonempty-some v e some_, database_url_of) refl,
  λ unset.
      let absent : nonempty (env (codes "DATABASE_URL")) ≡ none =
        ground (arith, nonempty_iff env (codes "DATABASE_URL")) in
      let url : database_url_of env
          ≡ assemble (nonempty (env (codes "PGHOST")))
              (text_or (codes "5432") (env (codes "PGPORT"))) (nonempty (env (codes "PGUSER")))
              (nonempty (env (codes "PGPASSWORD"))) (nonempty (env (codes "PGDATABASE"))) =
        rw (absent, database_url_of) refl in
      let parts =
        assemble_iff (nonempty (env (codes "PGHOST")))
          (text_or (codes "5432") (env (codes "PGPORT"))) (nonempty (env (codes "PGUSER")))
          (nonempty (env (codes "PGPASSWORD"))) (nonempty (env (codes "PGDATABASE"))) in
      let host = nonempty_iff env (codes "PGHOST") in
      let user = nonempty_iff env (codes "PGUSER") in
      let pass = nonempty_iff env (codes "PGPASSWORD") in
      let db = nonempty_iff env (codes "PGDATABASE") in
      rw url (
        λ h. let q = parts.0 h in (host.0 q.0, user.0 q.1, pass.0 q.2, db.0 q.3),
        λ q. parts.1 (host.1 q.0, user.1 q.1, pass.1 q.2, db.1 q.3),
      ),
)
