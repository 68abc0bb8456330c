-- ===== src/Tests/Start.antt =====
-- The theorems of the process on a sample environment.
use mathlib.Core.List.{Memᴰ, Perm}
use pokemon_rs.Prelude.{
  ℕ, ◌≤◌, ◌≡◌, refl, ◌≢◌, ◌⊎◌, true, false, not, none, some, List, [], ◌∷◌, map, if◌then◌else◌,
  filter, All, Text, codes, text_beq, ◌==◌, ok, err, text_eq, nat_eq,
}
use pokemon_rs.Float.Fixed.{Fixed, fixed_f64}
use pokemon_rs.Json.Plain.{Plain, millis-IsChronological, plain_json, plain_serialize, millis}
use pokemon_rs.Config.{to_app_config, Env, Parsers, from_env, database_url_of}
use pokemon_rs.Auth.{validate_token}
use pokemon_rs.RateLimit.{check, retry_after_seconds}
use pokemon_rs.Api.{nil_uuid}
use pokemon_rs.Prelude.Map.{get, insert}
use pokemon_rs.Prelude.Sort.{sort_by, insert_sorted}
use pokemon_rs.Rl.Store.{Experience, insert_experience, is_session_valid, list_by_session}
use pokemon_rs.Rl.Store.Histories.{timeless}
use pokemon_rs.Cli.Replays.{dyn_store-insert_all}
use pokemon_rs.Tests.{experience_at}
use pokemon_rs.Auth.Trim.{is_whitespace}
use pokemon_rs.Auth.Tokens.{role_of}
use pokemon_rs.Rl.Store.Contract.{IsExperienceStore, InTime}
use pokemon_rs.Rl.Store.Postgres.{Row}
use pokemon_rs.Rl.Store.Postgres.Table.{table, rows, table-IsTable}
use pokemon_rs.AppState.{AppState, parse_api_keys, with_config}
use pokemon_rs.AppState.Csv.{join_on, IsKey, parse_api_keys-join_on}
use pokemon_rs.Server.Middleware.{unauthorized_response}
use pokemon_rs.Server.Router.{dispatch, app, get_metrics}
use pokemon_rs.Server.Guards.{key_of, limited}
use pokemon_rs.Cli.{RlStore, postgres, in_memory, Pool, dyn_store, main}
use pokemon_rs.Cli.Start.{held, dyn_store-IsExperienceStore, main-app}
use pokemon_rs.Tests.Service.{show, request}

abbrev keys : List Text
keys = codes "admin:k" ∷ codes "u" ∷ []

keys-IsKey : All IsKey keys
unfolding is_whitespace
keys-IsKey = (
  (refl, ((refl, (refl, (refl, (refl, (refl, (refl, (refl, tt))))))), (refl, refl))),
  ((refl, ((refl, tt), (refl, refl))), tt),
)

parse_api_keys-join_on_example : parse_api_keys (some (join_on b',' keys)) ≡ keys
parse_api_keys-join_on_example = parse_api_keys-join_on keys keys-IsKey

abbrev inserted : List (Experience Fixed Plain ℕ)
inserted = experience_at 1 (some 9) ∷ experience_at 2 (some 4) ∷ []

abbrev Db : Type 0
Db = ℕ × List (Row Fixed Plain ℕ)

abbrev sample_env : Env
sample_env name = if text_beq name (codes "API_KEYS") then some (codes "admin:k,u") else none

abbrev no_parsers : Parsers Fixed ℕ
no_parsers = record {
  parse_addr = λ s. none;
  parse_f64 = λ s. none;
  parse_u32 = λ s. none;
  default_bind = 8080;
}

abbrev broken_pool : Pool Db
broken_pool = record { connect = λ url. err []; migrate = λ d. err [] }

abbrev started : AppState Fixed Plain ℕ (RlStore Fixed Plain ℕ Db)
started = with_config (in_memory []) (some (codes "admin:k,u")) (record {
  cost_per_spin = fixed_f64.decimal 1 2;
  human_likeness_weight = fixed_f64.decimal 3 1;
  rate_limit_rpm = 100;
})

runs : main no_parsers broken_pool sample_env (record { bind = some 9000 }) ≡ ok (9000, started)
unfolding main from_env database_url_of to_app_config
runs = refl

main-app_example :
    let q = request (some (codes "Bearer u")) get_metrics in
    let (limiter, allowed) = check (key_of q.auth) q.now started.rate_limiter in
    let s'' : AppState Fixed Plain ℕ (RlStore Fixed Plain ℕ Db) = record started {
      rate_limiter = limiter;
    } in
    let seconds = retry_after_seconds (key_of q.auth) q.ask limiter in
    (Memᴰ (codes "u") keys
      → (validate_token (codes "u") started.api_keys ≡ ok (role_of (codes "u")))
        × (allowed ≡ true
            → app ⦃r = dyn_store table⦄ show q started
              ≡ dispatch ⦃r = dyn_store table⦄ show q q.route s'')
        × (allowed ≡ false
            → (app ⦃r = dyn_store table⦄ show q started ≡ (s'', some (limited seconds)))
              × (1 ≤ seconds)))
    × (¬ Memᴰ (codes "u") keys
        → app ⦃r = dyn_store table⦄ show q started
          ≡ (started, some (unauthorized_response (codes "Missing or invalid Authorization"))))
unfolding is_whitespace
main-app_example =
    main-app table show no_parsers broken_pool sample_env (record { bind = some 9000 }) 9000 started
      (codes "admin:k") (codes "u" ∷ []) [] (request (some (codes "Bearer u")) get_metrics)
      (codes "Bearer u") (codes "u") runs refl keys-IsKey refl ((λ e. cc), (refl, refl))
      ([], [], [], refl, tt, tt, tt)

dyn_store-IsExperienceStore_example :
    IsExperienceStore (dyn_store (table {F = Fixed} {J = Plain})) (held rows) (in_memory [])
dyn_store-IsExperienceStore_example =
    dyn_store-IsExperienceStore table rows millis-IsChronological table-IsTable (in_memory [])

dyn_store-insert_all_example :
    Perm
      (map timeless (experience_at 2 (some 4) ∷ experience_at 1 (some 9) ∷ []))
      (map timeless inserted)
    × InTime (experience_at 2 (some 4) ∷ experience_at 1 (some 9) ∷ [])
    × All (λ (e : Experience Fixed Plain ℕ). e.session_id ≢ nil_uuid) inserted
    × ((inserted
          ≡ filter (λ (e : Experience Fixed Plain ℕ). not (e.session_id == nil_uuid)) inserted)
        ⊎ ((p : Db) × (◌≡◌ {A = RlStore Fixed Plain ℕ Db} (in_memory []) (postgres p))))
unfolding insert_experience is_session_valid get insert list_by_session sort_by insert_sorted
dyn_store-insert_all_example =
    dyn_store-insert_all table rows millis-IsChronological table-IsTable 7 inserted (in_memory [])
      (experience_at 2 (some 4) ∷ experience_at 1 (some 9) ∷ []) refl refl
