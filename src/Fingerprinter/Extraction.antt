-- ===== src/Fingerprinter/Extraction.antt =====
-- controller/src/fingerprinter/extraction.rs: symbol frequencies, the signature and the profile of
-- recorded spins. A `u64` wraps around, as in a release build. A `HashMap` is read in the order of
-- its association list.
pub mod Counts
pub mod Hash
pub mod Distinct
pub mod Signature
pub mod Profile
use pokemon_rs.Prelude.{
  ℕ, zero, suc, ◌+◌, ◌-◌, ◌*◌, ◌/◌, ◌%◌, ◌^◌, Option, none, some, List, [], ◌∷◌, ◌++◌, map, ltb,
  nat_beq, if◌then◌else◌, take, length, Text, codes, text_eq,
}
use pokemon_rs.Prelude.Map.{HashMap, get, insert}
use pokemon_rs.Float.{F64, nought, fmin, clamp}

-- `*counts.entry(s.clone()).or_insert(0) += 1`
abbrev pub count_of : Option ℕ → ℕ
count_of none = 0
count_of (some n) = n

abbrev pub count_row : List Text → HashMap Text ℕ → HashMap Text ℕ
count_row [] counts = counts
count_row (s ∷ row) counts =
    count_row row (insert s ((count_of (get s counts) + 1) % 2 ^ 64) counts)

abbrev pub count_rows : List (List Text) → HashMap Text ℕ → HashMap Text ℕ
count_rows [] counts = counts
count_rows (row ∷ rows) counts = count_rows rows (count_row row counts)

unfoldable pub symbol_counts : List (List Text) → HashMap Text ℕ
symbol_counts spin_symbols = count_rows spin_symbols []

-- `counts.values().sum()`
abbrev pub sum_values : HashMap Text ℕ → ℕ
sum_values [] = 0
sum_values ((_, v) ∷ counts) = (v + sum_values counts) % 2 ^ 64

-- `flat_map(|r| r.iter())`
abbrev pub concat {ℓ} : {A : Type ℓ} → List (List A) → List A
concat [] = []
concat (xs ∷ xss) = xs ++ concat xss

-- `flat.join(sep)`
abbrev pub join : Text → List Text → Text
join sep [] = []
join sep (s ∷ []) = s
join sep (s ∷ t ∷ ts) = s ++ (sep ++ join sep (t ∷ ts))

-- `as_bytes`: UTF-8.
abbrev pub utf8_char : ℕ → List ℕ
utf8_char c =
    if ltb c 128
    then c ∷ []
    else if ltb c 2048
    then (192 + c / 64) ∷ (128 + c % 64) ∷ []
    else if ltb c 65_536
    then (224 + c / 4096) ∷ (128 + c / 64 % 64) ∷ (128 + c % 64) ∷ []
    else (240 + c / 262_144) ∷ (128 + c / 4096 % 64) ∷ (128 + c / 64 % 64) ∷ (128 + c % 64) ∷ []

unfoldable pub as_bytes : Text → List ℕ
as_bytes s = concat (map utf8_char s)

-- `^` on numbers of at most `fuel` bits.
abbrev pub xor_bits : ℕ → ℕ → ℕ → ℕ
xor_bits zero a b = 0
xor_bits (suc fuel) a b = let rest = xor_bits fuel (a / 2) (b / 2) in (a % 2 + b % 2) % 2 + 2 * rest

unfoldable pub fnv1a_step : ℕ → ℕ → ℕ
fnv1a_step hash byte = xor_bits 64 hash byte * 1_099_511_628_211 % 2 ^ 64

abbrev pub fnv1a_from : ℕ → List ℕ → ℕ
fnv1a_from hash [] = hash
fnv1a_from hash (byte ∷ data_) = fnv1a_from (fnv1a_step hash byte) data_

abbrev pub offset_basis : ℕ
offset_basis = 14_695_981_039_346_656_037

unfoldable pub fnv1a_64 : List ℕ → ℕ
fnv1a_64 data_ = fnv1a_from offset_basis data_

abbrev pub hex_digit : ℕ → ℕ
hex_digit d = if ltb d 10 then b'0' + d else b'a' + (d - 10)

-- `{hash:0nx}` of a number below 16 ^ n.
abbrev pub hex : ℕ → ℕ → Text
hex zero h = []
hex (suc n) h = hex n (h / 16) ++ (hex_digit (h % 16) ∷ [])

unfoldable pub rng_signature_digest : List (List Text) → ℕ → Text
rng_signature_digest spin_symbols max_symbols =
    hex 16 (fnv1a_64 (as_bytes (join (codes ",") (take max_symbols (concat spin_symbols)))))

pub record StatisticalProfile (F : Type 0) : Type 0 where
  pub rtp_ratio : F
  pub volatility : F

module _ {F : Type 0} ⦃f : F64 F⦄ where
  abbrev pub frequency : ℕ → Text × ℕ → Text × F
  frequency total (k, v) = (k, f.div (f.of_u64 v) (f.of_u64 total))

  unfoldable pub extract_symbol_frequencies : List (List Text) → HashMap Text F
  extract_symbol_frequencies spin_symbols =
      let counts = symbol_counts spin_symbols in
      let total = sum_values counts in if nat_beq total 0 then [] else map (frequency total) counts

  -- The sum of `(p - mean).powi(2)` over the values.
  abbrev pub sum_squares : F → F → HashMap Text F → F
  sum_squares mean acc [] = acc
  sum_squares mean acc ((_, p) ∷ rest) =
      let d = f.sub p mean in sum_squares mean (f.add acc (f.mul d d)) rest

  unfoldable pub rtp : F → F → F
  rtp total_stake total_payout =
      if f.lt nought total_stake
      then clamp (f.div total_payout total_stake) nought (f.decimal 10 0)
      else nought

  unfoldable pub spread : HashMap Text F → F
  spread [] = nought
  spread (entry ∷ rest) =
      let n = f.of_u64 (length (entry ∷ rest)) in
      let mean = f.div (f.decimal 1 0) n in
      let variance = f.div (sum_squares mean nought (entry ∷ rest)) n in
      fmin (f.mul (f.sqrt variance) (f.decimal 10 0)) (f.decimal 1 0)

  unfoldable pub build_statistical_profile : HashMap Text F → F → F → StatisticalProfile F
  build_statistical_profile frequencies total_stake total_payout = record {
    rtp_ratio = rtp total_stake total_payout;
    volatility = spread frequencies;
  }
