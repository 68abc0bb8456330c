-- ===== src/Tests/Tokens.antt =====
-- The token theorems at concrete headers and keys.
use mathlib.Core.List.{Memᴰ}
use pokemon_rs.Prelude.{◌≡◌, ◌≢◌, ◌↔◌, ◌⊎◌, some, [], ◌∷◌, All, codes, ok}
use pokemon_rs.Auth.{admin, user, parse_bearer_token, validate_token}
use pokemon_rs.Auth.Bearer.{IsToken, Carries, parse_bearer_token_iff}
use pokemon_rs.Auth.Tokens.{Accepted, role_of, validate_token_iff}
use pokemon_rs.AppState.{parse_api_keys}
use pokemon_rs.AppState.Keys.{IsFiller, validate_token-parse_api_keys}

parse_bearer_token_iff_example :
    (parse_bearer_token (some (codes " Bearer  u ")) ≡ some (codes "u"))
    ↔ (IsToken (codes "u") × Carries (codes " Bearer  u ") (codes "u"))
parse_bearer_token_iff_example = parse_bearer_token_iff (codes " Bearer  u ") (codes "u")

validate_token_iff_example :
    (validate_token (codes "admin:k") (codes "admin:k" ∷ []) ≡ ok admin)
    ↔ Accepted (codes "admin:k") (codes "admin:k" ∷ []) admin
validate_token_iff_example = validate_token_iff (codes "admin:k") (codes "admin:k" ∷ []) admin

validate_token-parse_api_keys_example :
    (validate_token (codes "x") (parse_api_keys (some (codes " , ,"))) ≡ ok user) ↔ (
      (codes "x" ≢ [])
      × (All IsFiller (codes " , ,") ⊎ Memᴰ (codes "x") (parse_api_keys (some (codes " , ,"))))
      × (user ≡ role_of (codes "x")))
validate_token-parse_api_keys_example =
    validate_token-parse_api_keys (codes " , ,") (codes "x") user
