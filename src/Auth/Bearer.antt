-- ===== src/Auth/Bearer.antt =====
-- What `parse_bearer_token` (controller/src/auth.rs) accepts.
use mathlib.Core.Path.{subst}
use mathlib.Core.List.{append-nil, append_assoc}
use mathlib.Core.Option.{some-injective}
use pokemon_rs.Prelude.{
  ℕ, ◌≡◌, refl, sym, ap, ◌∙◌, ◌≢◌, ◌↔◌, inl, inr, true, none, some, [], ◌∷◌, ◌++◌, arith,
  if◌then◌else◌, Option-cases, All-append, Text, nat_eq,
}
use pokemon_rs.Auth.Trim.{trim, is_whitespace, Blank, EndsInk, IsTrimmed, trim-split, trim-pad}
use pokemon_rs.Auth.{strip_prefix, bearer_prefix, parse_bearer_token, is_empty}

-- What can be sent as a token: some text with no white space at its ends.
abbrev pub IsToken : Text → Type 0
IsToken t = (t ≢ []) × IsTrimmed t

-- A header that carries the token `t`, with white space where the parser skips it.
abbrev pub Carries : Text → Text → Type 0
Carries h t =
    (a b c : Text) × (h ≡ a ++ (bearer_prefix ++ (b ++ (t ++ c)))) × Blank a × Blank b × Blank c

strip_prefix-split : (p s rest : Text) → strip_prefix p s ≡ some rest → s ≡ p ++ rest
strip_prefix-split [] s rest h = some-injective _ _ h
strip_prefix-split (q ∷ p) [] rest h = cc
strip_prefix-split (q ∷ p) (c ∷ s) rest h = ground (arith, strip_prefix-split p s rest)

EndsInk-append : (s : Text) (c : ℕ) (t : Text) → EndsInk (c ∷ t) → EndsInk (s ++ (c ∷ t))
EndsInk-append [] c t ink = ink
EndsInk-append (d ∷ []) c t ink = ink
EndsInk-append (d ∷ e ∷ s) c t ink = EndsInk-append (e ∷ s) c t ink

nonempty : (u t : Text) → (if is_empty u then none else some u) ≡ some t → (t ≢ []) × (u ≡ t)
nonempty [] t h = cc
nonempty (c ∷ u) t h = (λ e. cc, some-injective _ _ h)

regroup :
    (a p b t d c : Text) {v rest h : Text}
    → h ≡ a ++ (v ++ c)
    → v ≡ p ++ rest
    → rest ≡ b ++ (t ++ d)
    → h ≡ a ++ (p ++ (b ++ (t ++ (d ++ c))))
regroup a p b t d c e f g = rw (e, f, g) (simp append_assoc)

parse_sound : (h t : Text) → parse_bearer_token (some h) ≡ some t → IsToken t × Carries h t
unfolding parse_bearer_token
parse_sound h t e =
    let (a, c, whole, blank_a, blank_c, ink) = trim-split h in
    elim (Option-cases (strip_prefix bearer_prefix (trim h))) [
      | inl missing ↦ cc (sym (rw (missing, parse_bearer_token) at e))
      | inr (rest, found) ↦
          let (b, d, body, blank_b, blank_d, ink') = trim-split rest in
          let (some_, same) = nonempty (trim rest) t (rw (found, parse_bearer_token) at e) in
          let body' : rest ≡ b ++ (t ++ d) = body ∙ ap (λ u. b ++ (u ++ d)) same in
          (
            (some_, subst IsTrimmed same ink'),
            (
              a,
              b,
              d ++ c,
              regroup a bearer_prefix b t d c whole
                  (strip_prefix-split bearer_prefix (trim h) rest found) body',
              blank_a,
              blank_b,
              All-append (λ x. is_whitespace x ≡ true) d c blank_d blank_c,
            ),
          )
    ]

trim_padded :
    (a b c : Text) (x : ℕ) (t : Text)
    → Blank a
    → Blank c
    → IsTrimmed (x ∷ t)
    → trim (a ++ (bearer_prefix ++ (b ++ ((x ∷ t) ++ c)))) ≡ bearer_prefix ++ (b ++ (x ∷ t))
unfolding is_whitespace
trim_padded a b c x t blank_a blank_c ink =
    let w : Text = bearer_prefix ++ (b ++ (x ∷ t)) in
    let ends : EndsInk w =
      subst EndsInk (append_assoc bearer_prefix b (x ∷ t))
        (EndsInk-append (bearer_prefix ++ b) x t ink.1) in
    let same : bearer_prefix ++ (b ++ ((x ∷ t) ++ c)) ≡ w ++ c =
      ap (◌++◌ bearer_prefix) (sym (append_assoc b (x ∷ t) c)) in
    ap (λ u. trim (a ++ u)) same ∙ trim-pad a w c blank_a blank_c (refl, ends)

trim_left : (b t : Text) → Blank b → IsTrimmed t → trim (b ++ t) ≡ t
trim_left b t blank ink =
    ap (λ u. trim (b ++ u)) (sym (append-nil t)) ∙ trim-pad b t [] blank tt ink

parse_complete : (h t : Text) → IsToken t → Carries h t → parse_bearer_token (some h) ≡ some t
unfolding parse_bearer_token
parse_complete h [] token carries = absurd (token.0 refl)
parse_complete h (x ∷ t) (some_, ink) (a, b, c, whole, blank_a, blank_b, blank_c) =
    rw (whole, trim_padded a b c x t blank_a blank_c ink, trim_left b (x ∷ t) blank_b ink)

-- A header yields the token `t` exactly when `t` is a non-empty text without white space at its
-- ends and the header is, up to white space around each part, the word "Bearer", a space and `t`.
pub parse_bearer_token_iff :
    (h t : Text) → (parse_bearer_token (some h) ≡ some t) ↔ (IsToken t × Carries h t)
parse_bearer_token_iff h t = (parse_sound h t, λ p. parse_complete h t p.0 p.1)
