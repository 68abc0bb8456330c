-- ===== src/Auth/Tokens.antt =====
-- What `validate_token` (controller/src/auth.rs) accepts.
use mathlib.Core.List.{Memᴰ}
use pokemon_rs.Prelude.{
  ◌≡◌, refl, sym, ◌≢◌, ◌↔◌, ◌⊎◌, inl, inr, true, List, [], ◌∷◌, arith, if◌then◌else◌, Bool-cases,
  Text, codes, text_beq_iff, ◌==◌, ok, text_eq,
}
use pokemon_rs.Auth.{Role, user, admin, contains, starts_with, validate_token}

-- The role that a token stands for.
abbrev pub role_of : Text → Role
role_of token = if starts_with (codes "admin:") token then admin else user

contains_sound : (ks : List Text) (t : Text) → contains ks t ≡ true → Memᴰ t ks
contains_sound [] t h = cc
contains_sound (k ∷ ks) t h = elim (Bool-cases (k == t)) [
  | inl same ↦ Memᴰ.head (sym ((text_beq_iff k t).0 same))
  | inr other ↦ Memᴰ.tail (contains_sound ks t (rw other at h))
]

contains_complete : (ks : List Text) (t : Text) → Memᴰ t ks → contains ks t ≡ true
contains_complete [] t m = elim m [ ]
contains_complete (k ∷ ks) t (Memᴰ.head e) = ground (arith, text_beq_iff k t)
contains_complete (k ∷ ks) t (Memᴰ.tail m) = ground (arith, contains_complete ks t m)

-- The conditions under which a token is accepted, and the role that it then has.
abbrev pub Accepted : Text → List Text → Role → Type 0
Accepted token api_keys role =
    (token ≢ []) × ((api_keys ≡ []) ⊎ Memᴰ token api_keys) × (role ≡ role_of token)

validate_token_sound :
    (token : Text) (api_keys : List Text) (role : Role)
    → validate_token token api_keys ≡ ok role
    → Accepted token api_keys role
unfolding validate_token
validate_token_sound [] ks role h = cc
validate_token_sound (c ∷ t) [] role h = (λ e. cc, inl refl, ground arith)
validate_token_sound (c ∷ t) (k ∷ ks) role h = elim (Bool-cases (contains (k ∷ ks) (c ∷ t))) [
  | inl known ↦ (λ e. cc, inr (contains_sound (k ∷ ks) (c ∷ t) known), ground arith)
  | inr unknown ↦ absurd (ground arith)
]

validate_token_complete :
    (token : Text) (api_keys : List Text) (role : Role)
    → Accepted token api_keys role
    → validate_token token api_keys ≡ ok role
unfolding validate_token
validate_token_complete [] ks role (some_, known, e) = absurd (some_ refl)
validate_token_complete (c ∷ t) [] role (some_, known, e) = ground arith
validate_token_complete (c ∷ t) (k ∷ ks) role (some_, inl empty, e) = cc
validate_token_complete (c ∷ t) (k ∷ ks) role (some_, inr known, e) =
    ground (arith, contains_complete (k ∷ ks) (c ∷ t) known)

-- A token is accepted exactly when it is not empty and either no key is configured or it is one of
-- the configured keys; its role is then "admin" if it begins with "admin:", and else "user".
pub validate_token_iff :
    (token : Text) (api_keys : List Text) (role : Role)
    → (validate_token token api_keys ≡ ok role) ↔ Accepted token api_keys role
validate_token_iff token api_keys role =
    (validate_token_sound token api_keys role, validate_token_complete token api_keys role)
