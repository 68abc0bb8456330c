-- ===== src/Fingerprinter/Extraction/Distinct.antt =====
-- Recordings that the signature (controller/src/fingerprinter/extraction.rs) tells apart.
use pokemon_rs.Prelude.{
  ℕ, ◌<◌, ◌≡◌, refl, sym, ap, ◌∙◌, ◌≢◌, List, [], ◌∷◌, ◌++◌, arith, take, Text, codes,
}
use mathlib.Core.List.{append-nil, append_assoc}
use pokemon_rs.Fingerprinter.Extraction.{
  concat, join, utf8_char, as_bytes, fnv1a_64, rng_signature_digest,
}
use pokemon_rs.Fingerprinter.Extraction.Hash.{fnv1a_64_one_byte}
use pokemon_rs.Fingerprinter.Extraction.Signature.{of_hex, rng_signature_digest_lem}

-- What stands before a symbol in the joined text, and after it.
abbrev before : List Text → Text
before [] = []
before (p ∷ pre) = p ++ (codes "," ++ before pre)

abbrev after : List Text → Text
after [] = []
after (q ∷ post) = codes "," ++ join (codes ",") (q ∷ post)

join-around :
    (pre post : List Text) (w : Text)
    → join (codes ",") (pre ++ (w ∷ post)) ≡ before pre ++ (w ++ after post)
join-around [] [] w = sym (append-nil w)
join-around [] (q ∷ post) w = refl
join-around (p ∷ []) post w =
    ap (λ r. p ++ (codes "," ++ r)) (join-around [] post w)
    ∙ sym (append_assoc p (codes ",") (w ++ after post))
join-around (p ∷ p' ∷ pre) post w =
    ap (λ r. p ++ (codes "," ++ r)) (join-around (p' ∷ pre) post w)
    ∙ sym (append_assoc p (codes "," ++ before (p' ∷ pre)) (w ++ after post))

as_bytes-append : (s t : Text) → as_bytes (s ++ t) ≡ as_bytes s ++ as_bytes t
unfolding as_bytes
as_bytes-append [] t = refl
as_bytes-append (c ∷ s) t =
    ap (λ r. utf8_char c ++ r) (as_bytes-append s t)
    ∙ sym (append_assoc (utf8_char c) (as_bytes s) (as_bytes t))

as_bytes-ascii : (c : ℕ) (t : Text) → c < 128 → as_bytes (c ∷ t) ≡ c ∷ as_bytes t
unfolding as_bytes
as_bytes-ascii c t h = ground arith

-- The bytes of the joined text around one character.
bytes-around :
    (pre post : List Text) (s t : Text) (a : ℕ)
    → a < 128
    → as_bytes (join (codes ",") (pre ++ ((s ++ (a ∷ t)) ∷ post)))
      ≡ as_bytes (before pre ++ s) ++ (a ∷ as_bytes (t ++ after post))
bytes-around pre post s t a ascii =
    ap as_bytes (
      join-around pre post (s ++ (a ∷ t))
      ∙ ap (λ r. before pre ++ r) (append_assoc s (a ∷ t) (after post))
      ∙ sym (append_assoc (before pre) s (a ∷ (t ++ after post))))
    ∙ as_bytes-append (before pre ++ s) (a ∷ (t ++ after post))
    ∙ ap (λ r. as_bytes (before pre ++ s) ++ r) (as_bytes-ascii a (t ++ after post) ascii)

-- If the symbols that two signatures are made from are the same but for one ASCII character, then
-- the signatures differ.
pub rng_signature_digest_one_character :
    (spins spins' : List (List Text)) (max_symbols : ℕ) (pre post : List Text) (s t : Text)
    (a b : ℕ)
    → take max_symbols (concat spins) ≡ pre ++ ((s ++ (a ∷ t)) ∷ post)
    → take max_symbols (concat spins') ≡ pre ++ ((s ++ (b ∷ t)) ∷ post)
    → a < 128
    → b < 128
    → a ≢ b
    → rng_signature_digest spins max_symbols ≢ rng_signature_digest spins' max_symbols
rng_signature_digest_one_character spins spins' max_symbols pre post s t a b at at' small small'
      differ e =
    let hashed = λ (qs : List (List Text)). (rng_signature_digest_lem qs max_symbols).2 in
    let text = λ (flat : List Text). fnv1a_64 (as_bytes (join (codes ",") flat)) in
    let same =
      sym (ap fnv1a_64 (bytes-around pre post s t a small))
      ∙ sym (ap text at)
      ∙ sym (hashed spins)
      ∙ ap (of_hex 0) e
      ∙ hashed spins'
      ∙ ap text at'
      ∙ ap fnv1a_64 (bytes-around pre post s t b small') in
    differ (
      fnv1a_64_one_byte (as_bytes (before pre ++ s)) (as_bytes (t ++ after post)) a b (omega arith)
        (omega arith) same)
