-- ===== src/Tests/Spending.antt =====
-- The theorems of the wallets of a running service.
use pokemon_rs.Prelude.{
  ℕ, ◌≡◌, refl, inl, true, none, some, List, [], ◌∷◌, arith, take, length, codes, nat_eq, text_eq,
}
use pokemon_rs.Prelude.Map.{get, insert}
use pokemon_rs.Prelude.Int.{◌+ℤ◌, ◌-ℤ◌}
use pokemon_rs.Float.Fixed.{Fixed, fixed_f64}
use pokemon_rs.Json.Plain.{Plain, Plain-IsSerde, plain_json, plain_serialize, millis}
use pokemon_rs.Api.{Wallet, WalletOperationRequest, debit}
use pokemon_rs.Persistence.{operate, apply_operation, wallet_create}
use pokemon_rs.Prelude.Sort.{sort_by}
use pokemon_rs.Rl.Store.{list_by_session, InMemoryStore, in_memory_store}
use pokemon_rs.Auth.{validate_token, parse_bearer_token, starts_with}
use pokemon_rs.Auth.Trim.{is_whitespace, trim}
use pokemon_rs.RateLimit
use pokemon_rs.RateLimit.{check, admit}
use pokemon_rs.AppState.{AppState, parse_api_keys, split_on, with_config}
use pokemon_rs.Server.{create_wallet_handler, wallet_operation_handler}
use pokemon_rs.Server.Middleware.{auth_middleware, rate_limit_middleware}
use pokemon_rs.Server.Router.{create_wallet, wallet_operation, Request, app}
use pokemon_rs.Server.Answers.{serves}
use pokemon_rs.Server.Ledger.{ledger}
use pokemon_rs.Server.Ledger.Outcomes.{Answered}
use pokemon_rs.Server.Ledger.Replies.{IsSmall}
use pokemon_rs.Server.Ledger.Refinement.{serves-Answered}
use pokemon_rs.Auth.{user}
use pokemon_rs.Server.Guards.{Authenticated}
use pokemon_rs.Json.Plain.{millis-IsChronological}
use pokemon_rs.Server.Ledger.Runs.{specs, admitted_of, serves-ledger}
use pokemon_rs.Tests.{sample_config, wallet_request, dollars}
use pokemon_rs.Tests.Service.{show, request}

abbrev five : WalletOperationRequest Fixed
five = record { operation = debit; amount = dollars 5 }

abbrev requests : List (Request Fixed ℕ)
requests =
    request (some (codes "Bearer u")) (create_wallet wallet_request)
    ∷ request (some (codes "Bearer u")) (wallet_operation 9 five)
    ∷ request (some (codes "Bearer u")) (wallet_operation 9 five)
    ∷ []

abbrev no_replay : InMemoryStore Fixed Plain ℕ
no_replay = []

-- The first debit is granted, and the second one is stopped by the rate limit of two.
abbrev debited : Wallet Fixed
debited = record {
  wallet_id = 9;
  balance = dollars 15;
  daily_limit = dollars 5;
  daily_spent = dollars 5;
}

served :
    get 9 (serves {J = Plain} show requests (with_config no_replay none sample_config)).wallet_repo
    ≡ some debited
unfolding app auth_middleware parse_bearer_token is_whitespace validate_token starts_with
    rate_limit_middleware check admit create_wallet_handler wallet_create wallet_operation_handler
    apply_operation operate get insert with_config parse_api_keys split_on RateLimit.new trim ◌+ℤ◌
    ◌-ℤ◌
served = refl

abbrev newly_started : AppState Fixed Plain ℕ (InMemoryStore Fixed Plain ℕ)
newly_started = with_config no_replay none sample_config

serves-ledger_example :
    ledger (serves show requests newly_started)
    ≡ specs newly_started.config (admitted_of show requests newly_started) (ledger newly_started)
serves-ledger_example = serves-ledger show Plain-IsSerde requests newly_started

-- The first two requests pass, and the limiter stops the third.
two_admitted : length (admitted_of show requests newly_started) ≡ 2
unfolding app auth_middleware parse_bearer_token is_whitespace validate_token starts_with
    rate_limit_middleware check admit create_wallet_handler wallet_create wallet_operation_handler
    apply_operation operate get insert with_config parse_api_keys split_on RateLimit.new trim ◌+ℤ◌
    ◌-ℤ◌
two_admitted = refl

abbrev two_requests : List (Request Fixed ℕ)
two_requests = take 2 requests

-- The limiter counts another header apart.
abbrev other_five : Request Fixed ℕ
other_five = request (some (codes "Bearer v")) (wallet_operation 9 five)

no_experiences : IsSmall (serves {J = Plain} show two_requests newly_started).rl_store
unfolding app auth_middleware parse_bearer_token is_whitespace validate_token starts_with
    rate_limit_middleware check admit create_wallet_handler wallet_create wallet_operation_handler
    apply_operation operate get insert with_config parse_api_keys split_on RateLimit.new trim ◌+ℤ◌
    ◌-ℤ◌ list_by_session sort_by
no_experiences id = omega arith

other-Authenticated : Authenticated (some (codes "Bearer v")) newly_started.api_keys user
unfolding is_whitespace starts_with with_config parse_api_keys split_on trim
other-Authenticated = (
  codes "Bearer v",
  codes "v",
  refl,
  ((λ e. cc), (refl, refl)),
  ([], [], [], refl, tt, tt, tt),
  ((λ e. cc), inl refl, refl),
)

other_allowed :
    (check (codes "Bearer v") 5 (serves {J = Plain} show two_requests newly_started).rate_limiter).1
    ≡ true
unfolding app auth_middleware parse_bearer_token is_whitespace validate_token starts_with
    rate_limit_middleware check admit create_wallet_handler wallet_create wallet_operation_handler
    apply_operation operate get insert with_config parse_api_keys split_on RateLimit.new trim ◌+ℤ◌
    ◌-ℤ◌
other_allowed = refl

serves-Answered_example :
    Answered show other_five user
      (wallet_operation 9 five)
      (specs newly_started.config
        (admitted_of show two_requests newly_started)
        (ledger newly_started))
      (app show other_five (serves show two_requests newly_started)).1
serves-Answered_example =
    serves-Answered show Plain-IsSerde millis-IsChronological two_requests other_five newly_started
      user no_experiences other-Authenticated other_allowed
