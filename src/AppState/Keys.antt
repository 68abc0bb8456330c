-- ===== src/AppState/Keys.antt =====
-- Which configured key lists leave the server open (controller/src/app_state.rs).
use mathlib.Core.Path.{subst}
use mathlib.Core.List.{append-nil, Memᴰ}
use pokemon_rs.Prelude.{
  ℕ, ◌≡◌, refl, sym, ap, ◌∙◌, ◌≢◌, ◌↔◌, ◌⊎◌, inl, inr, true, not, some, List, [], ◌∷◌, ◌++◌, map,
  arith, nat_beq, nat_beq_iff, Bool-cases, filter, All, All-append, Text, ok, nat_eq, text_eq,
}
use pokemon_rs.Auth.{is_empty, Role, validate_token}
use pokemon_rs.Auth.Tokens.{role_of, validate_token_iff}
use pokemon_rs.Auth.Trim.{trim, trim-split, trim-pad, is_whitespace, Blank}
use pokemon_rs.AppState.{cons_head, split_on, parse_api_keys}

-- A character that separates keys or is dropped around them.
abbrev pub IsFiller : ℕ → Type 0
IsFiller c = (c ≡ b',') ⊎ (is_whitespace c ≡ true)

-- A text is blank exactly when nothing is left of it after trimming.
trim-eq-nil : (s : Text) → trim s ≡ [] → Blank s
trim-eq-nil s e =
    let (a, b, whole, white, white', _) = trim-split s in
    let bare : s ≡ a ++ b = whole ∙ ap (λ t. a ++ (t ++ b)) e in
    subst Blank (sym bare) (All-append (λ c. is_whitespace c ≡ true) a b white white')

trim-Blank : (s : Text) → Blank s → trim s ≡ []
trim-Blank s b = ap trim (sym (append-nil s)) ∙ trim-pad s [] [] b tt (tt, tt)

abbrev kept : List Text → List Text
kept ps = filter (λ s. not (is_empty s)) (map trim ps)

dropped :
    (t : Text) (rest : List Text)
    → filter (λ s. not (is_empty s)) (t ∷ rest) ≡ []
    → (t ≡ []) × (filter (λ s. not (is_empty s)) rest ≡ [])
dropped [] rest e = (refl, e)
dropped (c ∷ t) rest e = cc

kept-nil : (ps : List Text) → kept ps ≡ [] → All Blank ps
kept-nil [] e = tt
kept-nil (p ∷ ps) e =
    let (none_left, rest) = dropped (trim p) (map trim ps) e in
    (trim-eq-nil p none_left, kept-nil ps rest)

kept-Blank : (ps : List Text) → All Blank ps → kept ps ≡ []
kept-Blank [] b = refl
kept-Blank (p ∷ ps) (b, bs) = rw (trim-Blank p b) (kept-Blank ps bs)

Blank-cons_head :
    (c : ℕ) (ps : List Text) → is_whitespace c ≡ true → All Blank ps → All Blank (cons_head c ps)
Blank-cons_head c [] white b = ((white, tt), tt)
Blank-cons_head c (p ∷ ps) white (b, bs) = ((white, b), bs)

Blank-of_cons_head :
    (c : ℕ) (ps : List Text) → All Blank (cons_head c ps) → (is_whitespace c ≡ true) × All Blank ps
Blank-of_cons_head c [] ((white, _), _) = (white, tt)
Blank-of_cons_head c (p ∷ ps) ((white, b), bs) = (white, (b, bs))

split_filler : (s : Text) → All IsFiller s → All Blank (split_on b',' s)
unfolding split_on
split_filler [] h = (tt, tt)
split_filler (c ∷ s) (h, hs) = elim (Bool-cases (nat_beq c b',')) [
  | inl comma ↦ rw comma (tt, split_filler s hs)
  | inr other ↦
      let white : is_whitespace c ≡ true = elim h [
        | inl e ↦ absurd (ground (arith, e))
        | inr w ↦ w
      ] in
      rw other (Blank-cons_head c (split_on b',' s) white (split_filler s hs))
]

IsFiller-of_split : (s : Text) → All Blank (split_on b',' s) → All IsFiller s
unfolding split_on
IsFiller-of_split [] h = tt
IsFiller-of_split (c ∷ s) h = elim (Bool-cases (nat_beq c b',')) [
  | inl comma ↦
      let rest : All Blank ([] ∷ split_on b',' s) = rw (comma, split_on) at h in
      (inl ((nat_beq_iff c b',').0 comma), IsFiller-of_split s rest.1)
  | inr other ↦
      let parts : All Blank (cons_head c (split_on b',' s)) = rw (other, split_on) at h in
      let (white, rest) = Blank-of_cons_head c (split_on b',' s) parts in
      (inr white, IsFiller-of_split s rest)
]

pub parse_api_keys-nil_iff : (csv : Text) → (parse_api_keys (some csv) ≡ []) ↔ All IsFiller csv
unfolding parse_api_keys
parse_api_keys-nil_iff csv = (
  λ e. IsFiller-of_split csv (kept-nil (split_on b',' csv) e),
  λ h. kept-Blank (split_on b',' csv) (split_filler csv h),
)

-- With a configured key list, a token is accepted, in the role that its prefix says, exactly when
-- it is not empty and either the key list holds nothing but commas and white space or the token is
-- one of the keys in it. So a list of commas and white space lets every token pass that is not
-- empty.
pub validate_token-parse_api_keys :
    (csv token : Text) (role : Role)
    → (validate_token token (parse_api_keys (some csv)) ≡ ok role) ↔ (
        (token ≢ [])
        × (All IsFiller csv ⊎ Memᴰ token (parse_api_keys (some csv)))
        × (role ≡ role_of token))
validate_token-parse_api_keys csv token role =
    let (sound, complete) = validate_token_iff token (parse_api_keys (some csv)) role in
    (
      λ h.
          let (some_, known, e) = sound h in
          (
            some_,
            elim known [
              | inl empty ↦ inl ((parse_api_keys-nil_iff csv).0 empty)
              | inr mem ↦ inr mem
            ],
            e,
          ),
      λ (some_, known, e). complete (
        some_,
        elim known [ inl filler ↦ inl ((parse_api_keys-nil_iff csv).1 filler) | inr mem ↦ inr mem ],
        e,
      ),
    )
