-- ===== src/Fingerprinter/Extraction/Signature.antt =====
-- The form of the signature (controller/src/fingerprinter/extraction.rs).
use pokemon_rs.Prelude.{
  ℕ, zero, suc, ◌+◌, ◌-◌, ◌*◌, ◌/◌, ◌%◌, ◌^◌, ◌≤◌, ◌<◌, ◌≡◌, refl, sym, ◌⊎◌, List, [], ◌∷◌, ◌++◌,
  arith, ltb, if◌then◌else◌, take, length, All, length-append, All-append, Text, codes,
}
use pokemon_rs.Fingerprinter.Extraction.{
  concat, join, as_bytes, fnv1a_step, fnv1a_from, fnv1a_64, hex_digit, hex, xor_bits,
  rng_signature_digest,
}

-- The number that a text of lower-case hexadecimal digits stands for.
abbrev pub of_digit : ℕ → ℕ
of_digit c = if ltb c b'a' then c - b'0' else c - b'a' + 10

abbrev pub of_hex : ℕ → Text → ℕ
of_hex acc [] = acc
of_hex acc (c ∷ s) = of_hex (acc * 16 + of_digit c) s

abbrev pub IsHexDigit : ℕ → Type 0
IsHexDigit c = ((b'0' ≤ c) × (c ≤ b'9')) ⊎ ((b'a' ≤ c) × (c ≤ b'f'))

hex_digit_lem : (d : ℕ) → d < 16 → IsHexDigit (hex_digit d) × (of_digit (hex_digit d) ≡ d)
hex_digit_lem d small = ground arith

of_hex-append :
    (acc : ℕ) (s : Text) (c : ℕ) → of_hex acc (s ++ (c ∷ [])) ≡ of_hex acc s * 16 + of_digit c
of_hex-append acc [] c = refl
of_hex-append acc (d ∷ s) c = of_hex-append (acc * 16 + of_digit d) s c

-- The number has at most `n` hexadecimal digits.
abbrev Fits : ℕ → ℕ → Type 0
Fits zero h = h ≡ 0
Fits (suc n) h = Fits n (h / 16)

hex_lem :
    (n h : ℕ)
    → Fits n h
    → (length (hex n h) ≡ n) × All IsHexDigit (hex n h) × (of_hex 0 (hex n h) ≡ h)
hex_lem zero h fits = (refl, tt, sym fits)
hex_lem (suc n) h fits =
    let (len, digits, value) = hex_lem n (h / 16) fits in
    let (digit, back) = hex_digit_lem (h % 16) (omega arith) in
    (
      ground (arith, len, length-append (hex n (h / 16)) (hex_digit (h % 16) ∷ [])),
      All-append IsHexDigit (hex n (h / 16)) (hex_digit (h % 16) ∷ []) digits (digit, tt),
      ground (arith, of_hex-append 0 (hex n (h / 16)) (hex_digit (h % 16)), value, back),
    )

Fits-16 : (h : ℕ) → h < 2 ^ 64 → Fits 16 h
Fits-16 h small = omega arith

wrap_lt : (n : ℕ) → n % 2 ^ 64 < 2 ^ 64
wrap_lt n = omega arith

fnv1a_from_lt : (hash : ℕ) (data_ : List ℕ) → hash < 2 ^ 64 → fnv1a_from hash data_ < 2 ^ 64
unfolding fnv1a_step
fnv1a_from_lt hash [] small = small
fnv1a_from_lt hash (b ∷ data_) small =
    fnv1a_from_lt (fnv1a_step hash b) data_ (wrap_lt (xor_bits 64 hash b * 1_099_511_628_211))

-- The signature is a text of 16 lower-case hexadecimal digits that writes the 64-bit hash of the
-- joined symbols, so that signatures are equal only if the hashes are.
pub rng_signature_digest_lem :
    (spins : List (List Text)) (max_symbols : ℕ)
    → let digest = rng_signature_digest spins max_symbols in
      (length digest ≡ 16)
      × All IsHexDigit digest
      × (of_hex 0 digest ≡ fnv1a_64 (as_bytes (join (codes ",") (take max_symbols (concat spins)))))
unfolding rng_signature_digest fnv1a_64
rng_signature_digest_lem spins max_symbols =
    let bytes = as_bytes (join (codes ",") (take max_symbols (concat spins))) in
    hex_lem 16 (fnv1a_64 bytes) (Fits-16 (fnv1a_64 bytes) (fnv1a_from_lt _ bytes (omega arith)))
