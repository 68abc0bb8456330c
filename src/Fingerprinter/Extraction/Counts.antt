-- ===== src/Fingerprinter/Extraction/Counts.antt =====
-- What the symbol counts and frequencies (controller/src/fingerprinter/extraction.rs) are.
use pokemon_rs.Prelude.{
  ℕ, suc, ◌+◌, ◌%◌, ◌^◌, ◌<◌, ◌≡◌, refl, sym, ◌∙◌, inl, inr, none, some, List, [], ◌∷◌, ◌++◌, map,
  arith, nat_beq, if◌then◌else◌, Bool-cases, length, Text, text_beq_iff, ◌==◌, text_eq,
}
use pokemon_rs.Prelude.Map.{HashMap, get, insert, get-insert}
use pokemon_rs.Float.{F64}
use pokemon_rs.Fingerprinter.Extraction.{
  count_of, count_row, count_rows, symbol_counts, sum_values, concat, frequency,
  extract_symbol_frequencies,
}

-- How often a symbol stands in a list.
abbrev pub occurrences : Text → List Text → ℕ
occurrences s [] = 0
occurrences s (t ∷ ts) = let rest = occurrences s ts in if t == s then suc rest else rest

occurrences-empty : (s : Text) (xs : List Text) → length xs ≡ 0 → occurrences s xs ≡ 0
occurrences-empty s [] h = refl
occurrences-empty s (x ∷ xs) h = ground arith

count_row-get :
    (s : Text) (row : List Text) (m : HashMap Text ℕ)
    → count_of (get s m) + length row < 2 ^ 64
    → get s (count_row row m) ≡ (
        if nat_beq (occurrences s row) 0
        then get s m
        else some (count_of (get s m) + occurrences s row))
count_row-get s [] m small = refl
count_row-get s (t ∷ row) m small =
    let m' = insert t ((count_of (get t m) + 1) % 2 ^ 64) m in
    let found = get-insert t s ((count_of (get t m) + 1) % 2 ^ 64) m in
    ground (arith, text_beq_iff t s, found, count_row-get s row m')

count_row-append :
    (a b : List Text) (m : HashMap Text ℕ) → count_row (a ++ b) m ≡ count_row b (count_row a m)
count_row-append [] b m = refl
count_row-append (s ∷ a) b m = count_row-append a b (insert s ((count_of (get s m) + 1) % 2 ^ 64) m)

count_rows-concat :
    (rows : List (List Text)) (m : HashMap Text ℕ) → count_rows rows m ≡ count_row (concat rows) m
count_rows-concat [] m = refl
count_rows-concat (row ∷ rows) m =
    count_rows-concat rows (count_row row m) ∙ sym (count_row-append row (concat rows) m)

sum_values-bump :
    (s : Text) (m : HashMap Text ℕ)
    → sum_values (insert s ((count_of (get s m) + 1) % 2 ^ 64) m) ≡ (sum_values m + 1) % 2 ^ 64
unfolding get insert
sum_values-bump s [] = ground arith
sum_values-bump s ((t, v) ∷ m) = ground (arith, sum_values-bump s m)

sum_values-count_row :
    (row : List Text) (m : HashMap Text ℕ)
    → sum_values m + length row < 2 ^ 64
    → sum_values (count_row row m) ≡ sum_values m + length row
sum_values-count_row [] m small = ground arith
sum_values-count_row (s ∷ row) m small =
    let m' = insert s ((count_of (get s m) + 1) % 2 ^ 64) m in
    ground (arith, sum_values-bump s m, sum_values-count_row row m')

-- Each symbol's count is the number of times it stands in the recorded spins, symbols that do not
-- occur have no entry, and the counts sum up to the number of symbols, if that fits 64 bits.
pub symbol_counts_lem :
    (spins : List (List Text)) (s : Text)
    → length (concat spins) < 2 ^ 64
    → let n = occurrences s (concat spins) in
      (get s (symbol_counts spins) ≡ (if nat_beq n 0 then none else some n))
      × (sum_values (symbol_counts spins) ≡ length (concat spins))
unfolding symbol_counts get
symbol_counts_lem spins s small = rw (count_rows-concat spins []) (
  ground (arith, count_row-get s (concat spins) [] (omega (arith, small))),
  ground (arith, sum_values-count_row (concat spins) [] (omega (arith, small))),
)

module _ {F : Type 0} ⦃f : F64 F⦄ where
  get-frequency :
      (s : Text) (total : ℕ) (m : HashMap Text ℕ)
      → get s (map (frequency total) m)
        ≡ elim (get s m) [ none ↦ none | some v ↦ some (f.div (f.of_u64 v) (f.of_u64 total)) ]
  unfolding get
  get-frequency s total [] = refl
  get-frequency s total ((t, v) ∷ m) = ground (arith, get-frequency s total m)

  -- The frequency of a symbol is the number of times it stands in the recorded spins divided by the
  -- number of symbols, and symbols that do not occur have no entry, if that number fits 64 bits.
  pub extract_symbol_frequencies_lem :
      (spins : List (List Text)) (s : Text)
      → length (concat spins) < 2 ^ 64
      → let n = occurrences s (concat spins) in
        get s (extract_symbol_frequencies spins) ≡ (
          if nat_beq n 0
          then none
          else some (f.div (f.of_u64 n) (f.of_u64 (length (concat spins)))))
  unfolding extract_symbol_frequencies get
  extract_symbol_frequencies_lem spins s small =
      let (found, total) = symbol_counts_lem spins s small in
      elim (Bool-cases (nat_beq (length (concat spins)) 0)) [
        | inl empty ↦ ground (arith, total, occurrences-empty s (concat spins))
        | inr some_ ↦
            ground
              (arith, total, found, get-frequency s (length (concat spins)) (symbol_counts spins))
      ]
