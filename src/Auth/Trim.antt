-- ===== src/Auth/Trim.antt =====
-- `str::trim` of Rust's standard library, which controller/src/auth.rs and
-- controller/src/app_state.rs use.
use mathlib.Core.Path.{subst}
use pokemon_rs.Prelude.{
  ℕ, ◌≡◌, refl, ap, ◌∙◌, inl, inr, Bool, true, false, ◌&&◌, ◌||◌, [], ◌∷◌, ◌++◌, leb, nat_beq,
  if◌then◌else◌, Bool-cases, All, All-append, Text,
}

-- `char::is_whitespace`: the code points with the Unicode property White_Space.
unfoldable pub is_whitespace : ℕ → Bool
is_whitespace c =
    (leb 0x9 c && leb c 0xd)
    || nat_beq c 0x20
    || nat_beq c 0x85
    || nat_beq c 0xa0
    || nat_beq c 0x1680
    || (leb 0x2000 c && leb c 0x200a)
    || nat_beq c 0x2028
    || nat_beq c 0x2029
    || nat_beq c 0x202f
    || nat_beq c 0x205f
    || nat_beq c 0x3000

unfoldable pub trim_start : Text → Text
trim_start [] = []
trim_start (c ∷ s) = let rest = trim_start s in if is_whitespace c then rest else c ∷ s

-- One character in front of a text that is trimmed at its end.
abbrev pub push_trimmed : ℕ → Text → Text
push_trimmed c [] = if is_whitespace c then [] else c ∷ []
push_trimmed c (d ∷ s) = c ∷ d ∷ s

unfoldable pub trim_end : Text → Text
trim_end [] = []
trim_end (c ∷ s) = push_trimmed c (trim_end s)

unfoldable pub trim : Text → Text
unfolding trim_start trim_end
trim s = trim_end (trim_start s)

abbrev pub Blank : Text → Type 0
Blank = All λ c. is_whitespace c ≡ true

-- The first character, if there is one, is no white space; and so for the last one.
abbrev pub StartsInk : Text → Type 0
StartsInk [] = Unit
StartsInk (c ∷ s) = is_whitespace c ≡ false

abbrev pub EndsInk : Text → Type 0
EndsInk [] = Unit
EndsInk (c ∷ []) = is_whitespace c ≡ false
EndsInk (c ∷ d ∷ s) = EndsInk (d ∷ s)

pub trim_start-split :
    (s : Text) → (a : Text) × (s ≡ a ++ trim_start s) × Blank a × StartsInk (trim_start s)
unfolding trim_start
trim_start-split [] = ([], refl, tt, tt)
trim_start-split (c ∷ s) = elim (Bool-cases (is_whitespace c)) [
  | inl blank ↦
      let (a, e, b, ink) = trim_start-split s in
      (c ∷ a, rw blank (ap (◌∷◌ c) e), (blank, b), rw blank ink)
  | inr ink ↦ ([], rw ink, tt, rw ink ink)
]

-- What `push_trimmed` puts in front of a trimmed text `t`, with blanks `a` behind it.
push_trimmed-split :
    (c : ℕ) (t a : Text)
    → Blank a
    → EndsInk t
    → (b : Text) × (c ∷ (t ++ a) ≡ push_trimmed c t ++ b) × Blank b × EndsInk (push_trimmed c t)
push_trimmed-split c (d ∷ t) a blank ink = (a, refl, blank, ink)
push_trimmed-split c [] a blank ink = elim (Bool-cases (is_whitespace c)) [
  | inl white ↦ (c ∷ a, rw white, (white, blank), rw white tt)
  | inr dark ↦ (a, rw dark, blank, rw dark dark)
]

pub trim_end-split :
    (s : Text) → (a : Text) × (s ≡ trim_end s ++ a) × Blank a × EndsInk (trim_end s)
unfolding trim_end
trim_end-split [] = ([], refl, tt, tt)
trim_end-split (c ∷ s) =
    let (a, e, blank, ink) = trim_end-split s in
    let (b, e', blank', ink') = push_trimmed-split c (trim_end s) a blank ink in
    (b, ap (◌∷◌ c) e ∙ e', blank', ink')

pub trim_start-append : (a s : Text) → Blank a → StartsInk s → trim_start (a ++ s) ≡ s
unfolding trim_start
trim_start-append [] [] b ink = refl
trim_start-append [] (c ∷ s) b ink = rw ink
trim_start-append (c ∷ a) s (white, b) ink = rw white (trim_start-append a s b ink)

trim_end-Blank : (a : Text) → Blank a → trim_end a ≡ []
unfolding trim_end
trim_end-Blank [] b = refl
trim_end-Blank (c ∷ a) (white, b) = rw (trim_end-Blank a b) (rw white)

pub trim_end-append : (s a : Text) → Blank a → EndsInk s → trim_end (s ++ a) ≡ s
unfolding trim_end
trim_end-append [] a b ink = trim_end-Blank a b
trim_end-append (c ∷ []) a b ink = rw (trim_end-Blank a b) (rw ink)
trim_end-append (c ∷ d ∷ s) a b ink = rw (trim_end-append (d ∷ s) a b ink, push_trimmed)

-- A text with no white space at its ends.
abbrev pub IsTrimmed : Text → Type 0
IsTrimmed s = StartsInk s × EndsInk s

StartsInk-append : (s a : Text) → StartsInk (s ++ a) → StartsInk s
StartsInk-append [] a ink = tt
StartsInk-append (c ∷ s) a ink = ink

-- A text is white space, its trimmed text, and white space.
pub trim-split :
    (s : Text) → (a b : Text) × (s ≡ a ++ (trim s ++ b)) × Blank a × Blank b × IsTrimmed (trim s)
unfolding trim
trim-split s =
    let (a, e, blank, ink) = trim_start-split s in
    let (b, e', blank', ink') = trim_end-split (trim_start s) in
    (
      a,
      b,
      e ∙ ap (◌++◌ a) e',
      blank,
      blank',
      (StartsInk-append (trim_end (trim_start s)) b (subst StartsInk e' ink), ink'),
    )

trim_start-Blank : (a : Text) → Blank a → trim_start a ≡ []
unfolding trim_start
trim_start-Blank [] b = refl
trim_start-Blank (c ∷ a) (white, b) = rw white (trim_start-Blank a b)

-- Padding with white space on either side is what `trim` removes.
pub trim-pad : (a t b : Text) → Blank a → Blank b → IsTrimmed t → trim (a ++ (t ++ b)) ≡ t
unfolding trim
trim-pad a [] b white white' ink =
    rw (trim_start-Blank (a ++ b) (All-append (λ c. is_whitespace c ≡ true) a b white white')) refl
trim-pad a (c ∷ t) b white white' (starts, ends) =
    rw (trim_start-append a ((c ∷ t) ++ b) white starts) (trim_end-append (c ∷ t) b white' ends)
