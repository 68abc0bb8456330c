-- ===== src/Tests.antt =====
-- Concrete data on which the theorems are applied: one running service.
mod Sessions
mod Races
mod Concurrency
mod Tasks
mod Spending
mod Wallets
mod Limits
mod Tokens
mod Replay
mod Service
mod Throttle
mod Pure
mod Start
use pokemon_rs.Prelude.{ℕ, ◌*◌, false, Option, none, some, [], ◌∷◌, codes}
use pokemon_rs.Prelude.Int.{pos}
use pokemon_rs.Float.Fixed.{Fixed, fixed_f64}
use pokemon_rs.Json.Plain.{Plain, nothing, object}
use pokemon_rs.StateEngine.{evaluating}
use pokemon_rs.Api.{
  Session, Wallet, Money, aud, CreateSessionRequest, cash_out, PlayActionRequest,
  CreateWalletRequest,
}
use pokemon_rs.Domain.{AppConfig}
use pokemon_rs.Persistence.{SessionStore, WalletStore}
use pokemon_rs.Events.{GameplayEvent}
use pokemon_rs.Rl.Store.{Experience, InMemoryStore}
use pokemon_rs.RateLimit.{RateLimiter}
use pokemon_rs.AppState.{AppState}
use pokemon_rs.Server.{Draw}

-- Ten-thousandths.
abbrev pub dollars : ℕ → Money Fixed
dollars n = record { amount = some (pos (n * 10_000)); currency = aud }

abbrev pub evaluated_session : Session Fixed
evaluated_session = record {
  session_id = 7;
  game_id = 3;
  state = evaluating;
  metrics = record { total_spins = 2; total_payout = some (pos 0) };
}

abbrev pub sample_sessions : SessionStore Fixed
sample_sessions = (7, evaluated_session) ∷ []

abbrev pub sample_wallet : Wallet Fixed
sample_wallet = record {
  wallet_id = 9;
  balance = dollars 100;
  daily_limit = dollars 50;
  daily_spent = dollars 10;
}

abbrev pub sample_wallets : WalletStore Fixed
sample_wallets = (9, sample_wallet) ∷ []

abbrev pub bet_value : Plain
bet_value = object ((codes "type", codes "PlaceBet") ∷ [])

abbrev pub event_at : ℕ → ℕ → GameplayEvent Fixed Plain ℕ
event_at id t = record {
  event_id = id;
  session_id = 7;
  action = bet_value;
  result = object [];
  timestamp = some t;
  reward = none;
}

abbrev pub experience_at : ℕ → Option ℕ → Experience Fixed Plain ℕ
experience_at id t = record {
  id = id;
  session_id = 7;
  state = nothing;
  action = bet_value;
  reward = some (pos 0);
  next_state = nothing;
  done = false;
  created_at = t;
}

abbrev pub sample_replay : InMemoryStore Fixed Plain ℕ
sample_replay = (7, experience_at 1 none ∷ experience_at 2 (some 5000) ∷ []) ∷ []

abbrev pub sample_limiter : RateLimiter
sample_limiter = record { inner = []; max_requests = 2; window = 60_000_000_000 }

abbrev pub sample_config : AppConfig Fixed
sample_config = record {
  cost_per_spin = some (pos 100);
  human_likeness_weight = some (pos 3000);
  rate_limit_rpm = 2;
}

abbrev pub sample_state : AppState Fixed Plain ℕ (InMemoryStore Fixed Plain ℕ)
sample_state = record {
  session_repo = sample_sessions;
  wallet_repo = sample_wallets;
  event_store = event_at 1 2000 ∷ [];
  fingerprint_store = [];
  rl_store = sample_replay;
  api_keys = codes "admin:k" ∷ codes "u" ∷ [];
  rate_limiter = sample_limiter;
  metrics = record { sessions_created = 1; sessions_completed = 0; sessions_playing = 1 };
  config = sample_config;
}

abbrev pub session_request : CreateSessionRequest Fixed
session_request = record {
  game_id = 3;
  player_profile = record { behavior_type = codes "calm"; max_bet = none };
}

abbrev pub cash_out_request : PlayActionRequest Fixed
cash_out_request = record {
  action = record { action_type = cash_out; amount = none };
  human_likeness = none;
}

abbrev pub wallet_request : CreateWalletRequest Fixed
wallet_request = record { wallet_id = some 9; balance = dollars 20; daily_limit = dollars 5 }

abbrev pub sample_draw : Draw ℕ
sample_draw = record { event_id = 11; experience_id = 12; now = 9000 }
