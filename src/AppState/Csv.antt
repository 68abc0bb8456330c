-- ===== src/AppState/Csv.antt =====
-- Which keys a configured list yields (controller/src/app_state.rs: `parse_api_keys`).
use mathlib.Core.List.{append-nil}
use pokemon_rs.Prelude.{
  ℕ, ◌≡◌, refl, sym, ap, ◌∙◌, true, false, not, some, List, [], ◌∷◌, ◌++◌, map, arith, nat_beq,
  filter, All, Text, text_eq, nat_eq,
}
use pokemon_rs.Auth.{is_empty}
use pokemon_rs.Auth.Trim.{trim, trim-pad, IsTrimmed}
use pokemon_rs.AppState.{split_on, parse_api_keys}

-- The parts with the separator between them.
abbrev pub join_on : ℕ → List Text → Text
join_on sep [] = []
join_on sep (p ∷ []) = p
join_on sep (p ∷ q ∷ ps) = p ++ (sep ∷ join_on sep (q ∷ ps))

abbrev pub Lacks : ℕ → Text → Type 0
Lacks sep s = All (λ c. nat_beq c sep ≡ false) s

-- A key that can stand in the list: not empty, with no comma and no white space at its ends.
abbrev pub IsKey : Text → Type 0
IsKey k = (is_empty k ≡ false) × (Lacks b',' k × IsTrimmed k)

split_on-part : (sep : ℕ) (p : Text) → Lacks sep p → split_on sep p ≡ p ∷ []
unfolding split_on
split_on-part sep [] h = refl
split_on-part sep (c ∷ p) (h, hs) = rw (h, split_on-part sep p hs) refl

split_on-append :
    (sep : ℕ) (p s : Text) → Lacks sep p → split_on sep (p ++ (sep ∷ s)) ≡ p ∷ split_on sep s
unfolding split_on
split_on-append sep [] s h = let e : nat_beq sep sep ≡ true = ground arith in rw e refl
split_on-append sep (c ∷ p) s (h, hs) = rw (h, split_on-append sep p s hs) refl

-- Splitting takes apart what was joined.
split_on-join_on :
    (sep : ℕ) (p : Text) (ps : List Text)
    → All (Lacks sep) (p ∷ ps)
    → split_on sep (join_on sep (p ∷ ps)) ≡ p ∷ ps
split_on-join_on sep p [] (h, hs) = split_on-part sep p h
split_on-join_on sep p (q ∷ ps) (h, hs) =
    split_on-append sep p (join_on sep (q ∷ ps)) h ∙ ap (◌∷◌ p) (split_on-join_on sep q ps hs)

pub join_on_nonempty :
    (k : Text) (ks : List Text) → is_empty k ≡ false → is_empty (join_on b',' (k ∷ ks)) ≡ false
join_on_nonempty [] ks h = cc
join_on_nonempty (c ∷ k) [] h = refl
join_on_nonempty (c ∷ k) (q ∷ ks) h = refl

trim-IsKey : (k : Text) → IsTrimmed k → trim k ≡ k
trim-IsKey k t = ap trim (sym (append-nil k)) ∙ trim-pad [] k [] tt tt t

kept : (ks : List Text) → All IsKey ks → filter (λ s. not (is_empty s)) (map trim ks) ≡ ks
kept [] h = refl
kept (k ∷ ks) ((some_, (lacks, trimmed)), hs) = rw (trim-IsKey k trimmed, some_, kept ks hs) refl

lacking : (ks : List Text) → All IsKey ks → All (Lacks b',') ks
lacking [] h = tt
lacking (k ∷ ks) ((some_, (lacks, trimmed)), hs) = (lacks, lacking ks hs)

-- The keys that are joined by commas, each of them not empty, without commas and without white
-- space at its ends, are the keys that the list yields, in the same order.
pub parse_api_keys-join_on :
    (ks : List Text) → All IsKey ks → parse_api_keys (some (join_on b',' ks)) ≡ ks
unfolding parse_api_keys split_on trim
parse_api_keys-join_on [] h = refl
parse_api_keys-join_on (k ∷ ks) h =
    ap (λ ps. filter (λ s. not (is_empty s)) (map trim ps))
      (split_on-join_on b',' k ks (lacking (k ∷ ks) h))
    ∙ kept (k ∷ ks) h
