-- ===== src/Config.antt =====
-- cli/src/config.rs: the configuration from the environment. The environment is a function from
-- names to values; the parsers of `FromStr` are arguments, and `Addr` is `SocketAddr`.
pub mod Database
use pokemon_rs.Prelude.{ℕ, Option, none, some, ◌++◌, if◌then◌else◌, Text, codes}
use pokemon_rs.Float.{F64}
use pokemon_rs.Auth.{is_empty}
use pokemon_rs.Domain.{AppConfig}

abbrev pub Env : Type 0
Env = Text → Option Text

-- `str::parse` at the three types.
pub record Parsers (F Addr : Type 0) : Type 0 where
  pub parse_addr : Text → Option Addr
  pub parse_f64 : Text → Option F
  pub parse_u32 : Text → Option ℕ
  -- The address 0.0.0.0:8080, whose parse is expected to succeed.
  pub default_bind : Addr

pub record Config (F Addr : Type 0) : Type 0 where
  pub bind : Addr
  pub api_keys : Option Text
  pub cost_per_spin : F
  pub human_likeness_weight : F
  pub rate_limit_rpm : ℕ
  pub database_url : Option Text

-- `.ok().filter(|s| !s.is_empty())`
abbrev pub nonempty : Option Text → Option Text
nonempty none = none
nonempty (some s) = if is_empty s then none else some s

-- `.ok().and_then(|v| v.parse().ok()).unwrap_or(d)`
abbrev pub parse_or : {A : Type 0} → A → (Text → Option A) → Option Text → A
parse_or d parse none = d
parse_or d parse (some v) = elim (parse v) [ some a ↦ a | none ↦ d ]

-- The closure of `or_else`, on the variables' values.
abbrev pub assemble : Option Text → Text → Option Text → Option Text → Option Text → Option Text
assemble (some host) port (some user) (some pass) (some db) = some (
    codes "postgres://"
    ++ (user
        ++ (codes ":"
            ++ (pass ++ (codes "@" ++ (host ++ (codes ":" ++ (port ++ (codes "/" ++ db)))))))))
assemble _ _ _ _ _ = none

abbrev pub or_else : Option Text → Option Text → Option Text
or_else (some a) b = some a
or_else none b = b

abbrev pub text_or : Text → Option Text → Text
text_or d none = d
text_or d (some s) = s

unfoldable pub database_url_of : Env → Option Text
database_url_of env = or_else (nonempty (env (codes "DATABASE_URL"))) (
    assemble (nonempty (env (codes "PGHOST"))) (text_or (codes "5432") (env (codes "PGPORT")))
      (nonempty (env (codes "PGUSER"))) (nonempty (env (codes "PGPASSWORD")))
      (nonempty (env (codes "PGDATABASE"))))

module _ {F Addr : Type 0} where
  unfoldable pub from_env : ⦃f : F64 F⦄ → Parsers F Addr → Env → Config F Addr
  from_env ⦃f⦄ parsers env = record {
    bind = parse_or parsers.default_bind parsers.parse_addr (env (codes "BIND_ADDR"));
    api_keys = nonempty (env (codes "API_KEYS"));
    cost_per_spin = parse_or (f.decimal 1 2) parsers.parse_f64 (env (codes "COST_PER_SPIN"));
    human_likeness_weight =
        parse_or (f.decimal 3 1) parsers.parse_f64 (env (codes "HUMAN_LIKENESS_WEIGHT"));
    rate_limit_rpm = parse_or 100 parsers.parse_u32 (env (codes "RATE_LIMIT_RPM"));
    database_url = database_url_of env;
  }

  unfoldable pub to_app_config : Config F Addr → AppConfig F
  to_app_config cfg = record {
    cost_per_spin = cfg.cost_per_spin;
    human_likeness_weight = cfg.human_likeness_weight;
    rate_limit_rpm = cfg.rate_limit_rpm;
  }
