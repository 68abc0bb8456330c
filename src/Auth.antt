-- ===== src/Auth.antt =====
-- controller/src/auth.rs: bearer tokens and roles. Texts are lists of code points.
pub mod Trim
pub mod Bearer
pub mod Tokens
use pokemon_rs.Prelude.{
  Bool, true, false, not, ◌&&◌, ◌||◌, Option, none, some, List, [], ◌∷◌, if◌then◌else◌, Text, codes,
  ◌==◌, Result, ok, err, nat_eq, text_eq,
}
use pokemon_rs.Auth.Trim.{trim}

pub data Role : Type 0 where
  user admin : Role

pub data AuthError : Type 0 where
  invalid_token unauthorized : AuthError

abbrev pub is_empty {ℓ} : {A : Type ℓ} → List A → Bool
is_empty [] = true
is_empty (_ ∷ _) = false

-- `v.starts_with(prefix)` with `&v[prefix.len()..]`
abbrev pub strip_prefix : Text → Text → Option Text
strip_prefix [] s = some s
strip_prefix (p ∷ ps) [] = none
strip_prefix (p ∷ ps) (c ∷ s) = if p == c then strip_prefix ps s else none

abbrev pub bearer_prefix : Text
bearer_prefix = codes "Bearer "

-- The body after the `starts_with` test.
abbrev token_of : Option Text → Option Text
token_of none = none
token_of (some rest) = let token = trim rest in if is_empty token then none else some token

unfoldable pub parse_bearer_token : Option Text → Option Text
parse_bearer_token none = none
parse_bearer_token (some header_value) = token_of (strip_prefix bearer_prefix (trim header_value))

-- `HashSet::contains`
abbrev pub contains : List Text → Text → Bool
contains [] t = false
contains (k ∷ ks) t = k == t || contains ks t

unfoldable pub starts_with : Text → Text → Bool
starts_with p s = elim (strip_prefix p s) [ some _ ↦ true | none ↦ false ]

unfoldable pub validate_token : Text → List Text → Result AuthError Role
validate_token token api_keys =
    if is_empty token
    then err invalid_token
    else if not (is_empty api_keys) && not (contains api_keys token)
    then err unauthorized
    else if starts_with (codes "admin:") token
    then ok admin
    else ok user

unfoldable pub role_allowed : Role → Role → Bool
role_allowed admin admin = true
role_allowed admin user = false
role_allowed user user_role = true
