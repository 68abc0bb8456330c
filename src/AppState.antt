-- ===== src/AppState.antt =====
-- controller/src/app_state.rs: the shared application state, over the in-memory stores that
-- cli/src/main.rs builds it from and any store of experiences, whose state is the type `S`, and the
-- parsing of the configured API keys.
pub mod Keys
pub mod Csv
use pokemon_rs.Prelude.{
  ℕ, ◌*◌, not, Option, none, some, List, [], ◌∷◌, map, nat_beq, if◌then◌else◌, filter, Text, nat_eq,
  text_eq,
}
use pokemon_rs.Domain.{AppConfig, default_config}
use pokemon_rs.Float.{F64}
use pokemon_rs.Persistence.{SessionStore, WalletStore}
use pokemon_rs.Events.{InMemoryEventStore}
use pokemon_rs.Fingerprinter.{InMemoryFingerprintStore}
use pokemon_rs.RateLimit
use pokemon_rs.RateLimit.{RateLimiter, nanos_per_sec}
use pokemon_rs.Metrics
use pokemon_rs.Metrics.{SessionMetrics}
use pokemon_rs.Auth.{is_empty}
use pokemon_rs.Auth.Trim.{trim}

-- One more character in front of the first part.
abbrev pub cons_head : ℕ → List Text → List Text
cons_head c [] = (c ∷ []) ∷ []
cons_head c (p ∷ ps) = (c ∷ p) ∷ ps

-- `split(sep)`: at least one part.
unfoldable pub split_on : ℕ → Text → List Text
split_on sep [] = [] ∷ []
split_on sep (c ∷ s) =
    let rest = split_on sep s in if nat_beq c sep then [] ∷ rest else cons_head c rest

-- `api_keys_csv.unwrap_or("").split(',').map(str::trim).filter(|s| !s.is_empty())`
unfoldable pub parse_api_keys : Option Text → List Text
unfolding split_on
parse_api_keys none = filter (λ s. not (is_empty s)) (map trim (split_on b',' []))
parse_api_keys (some csv) = filter (λ s. not (is_empty s)) (map trim (split_on b',' csv))

pub record AppState (F J T S : Type 0) : Type 0 where
  pub session_repo : SessionStore F
  pub wallet_repo : WalletStore F
  pub event_store : InMemoryEventStore F J T
  pub fingerprint_store : InMemoryFingerprintStore J
  pub rl_store : S
  pub api_keys : List Text
  pub rate_limiter : RateLimiter
  pub metrics : SessionMetrics
  pub config : AppConfig F

-- `AppState::with_config`, over empty stores and the given store of experiences.
unfoldable pub with_config : {F J T S : Type 0} → S → Option Text → AppConfig F → AppState F J T S
with_config rl_store api_keys_csv config = record {
  session_repo = [];
  wallet_repo = [];
  event_store = [];
  fingerprint_store = [];
  rl_store = rl_store;
  api_keys = parse_api_keys api_keys_csv;
  rate_limiter = RateLimit.new config.rate_limit_rpm (60 * nanos_per_sec);
  metrics = Metrics.new;
  config = config;
}

-- `AppState::new`: the default configuration.
unfoldable pub new : {F J T S : Type 0} ⦃f : F64 F⦄ → S → Option Text → AppState F J T S
unfolding with_config default_config
new rl_store api_keys_csv = with_config rl_store api_keys_csv default_config
