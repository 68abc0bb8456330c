-- ===== src/Fingerprinter/Extraction/Hash.antt =====
-- The steps of the hash FNV-1a (controller/src/fingerprinter/extraction.rs) can be undone.
use pokemon_rs.Prelude.{
  ℕ, zero, suc, ◌+◌, ◌*◌, ◌/◌, ◌%◌, ◌^◌, ◌<◌, ◌≡◌, refl, sym, ap, ◌∙◌, List, [], ◌∷◌, ◌++◌, arith,
}
use pokemon_rs.Fingerprinter.Extraction.{fnv1a_step, fnv1a_from, fnv1a_64, xor_bits, offset_basis}

pow-suc : (n : ℕ) → 2 ^ suc n ≡ 2 * 2 ^ n
pow-suc n = omega arith

half_lt : (n a : ℕ) → a < 2 ^ suc n → a / 2 < 2 ^ n
half_lt n a h = omega (arith, pow-suc n)

-- Twice the same exclusive or is none.
xor_bits_twice : (n a b : ℕ) → a < 2 ^ n → xor_bits n (xor_bits n a b) b ≡ a
xor_bits_twice zero a b h = omega arith
xor_bits_twice (suc n) a b h =
    let rest = xor_bits n (a / 2) (b / 2) in
    let low = (a % 2 + b % 2) % 2 in
    let shifted : (low + 2 * rest) / 2 ≡ rest = omega arith in
    rw shifted (omega (arith, xor_bits_twice n (a / 2) (b / 2) (half_lt n a h)))

xor_bits_lt : (n a b : ℕ) → xor_bits n a b < 2 ^ n
xor_bits_lt zero a b = omega arith
xor_bits_lt (suc n) a b = omega (arith, pow-suc n, xor_bits_lt n (a / 2) (b / 2))

xor_bits_comm : (n a b : ℕ) → xor_bits n a b ≡ xor_bits n b a
xor_bits_comm zero a b = refl
xor_bits_comm (suc n) a b = omega (arith, xor_bits_comm n (a / 2) (b / 2))

-- The multiplier of the hash has an inverse.
times_prime :
    (a : ℕ) → a < 2 ^ 64 → a * 1_099_511_628_211 % 2 ^ 64 * 14_886_173_955_864_302_971 % 2 ^ 64 ≡ a
times_prime a h = omega arith

fnv1a_step_lt : (h b : ℕ) → fnv1a_step h b < 2 ^ 64
unfolding fnv1a_step
fnv1a_step_lt h b = wrap (xor_bits 64 h b * 1_099_511_628_211)
  where
    wrap : (n : ℕ) → n % 2 ^ 64 < 2 ^ 64
    wrap n = omega arith

-- What the inverse multiplier makes of a step.
unstep : (h b : ℕ) → fnv1a_step h b * 14_886_173_955_864_302_971 % 2 ^ 64 ≡ xor_bits 64 h b
unfolding fnv1a_step
unstep h b = times_prime (xor_bits 64 h b) (xor_bits_lt 64 h b)

-- A step forgets neither the hash before it nor the byte.
step_xor : (h b k c : ℕ) → fnv1a_step h b ≡ fnv1a_step k c → xor_bits 64 h b ≡ xor_bits 64 k c
step_xor h b k c e =
    sym (unstep h b) ∙ ap (λ n. n * 14_886_173_955_864_302_971 % 2 ^ 64) e ∙ unstep k c

step_hash : (h k b : ℕ) → h < 2 ^ 64 → k < 2 ^ 64 → fnv1a_step h b ≡ fnv1a_step k b → h ≡ k
step_hash h k b hs ks e =
    sym (xor_bits_twice 64 h b hs)
    ∙ ap (λ n. xor_bits 64 n b) (step_xor h b k b e)
    ∙ xor_bits_twice 64 k b ks

step_byte : (h b c : ℕ) → b < 2 ^ 64 → c < 2 ^ 64 → fnv1a_step h b ≡ fnv1a_step h c → b ≡ c
step_byte h b c bs cs e =
    sym (xor_bits_twice 64 b h bs)
    ∙ ap (λ n. xor_bits 64 n h) (xor_bits_comm 64 b h ∙ step_xor h b h c e ∙ xor_bits_comm 64 h c)
    ∙ xor_bits_twice 64 c h cs

fnv1a_from-append :
    (h : ℕ) (xs ys : List ℕ) → fnv1a_from h (xs ++ ys) ≡ fnv1a_from (fnv1a_from h xs) ys
fnv1a_from-append h [] ys = refl
fnv1a_from-append h (x ∷ xs) ys = fnv1a_from-append (fnv1a_step h x) xs ys

from_hash :
    (h k : ℕ) (zs : List ℕ) → h < 2 ^ 64 → k < 2 ^ 64 → fnv1a_from h zs ≡ fnv1a_from k zs → h ≡ k
from_hash h k [] hs ks e = e
from_hash h k (z ∷ zs) hs ks e =
    step_hash h k z hs ks
      (from_hash (fnv1a_step h z) (fnv1a_step k z) zs (fnv1a_step_lt h z) (fnv1a_step_lt k z) e)

-- Byte strings that agree but for one byte have different hashes.
pub fnv1a_64_one_byte :
    (xs zs : List ℕ) (b c : ℕ)
    → b < 256
    → c < 256
    → fnv1a_64 (xs ++ (b ∷ zs)) ≡ fnv1a_64 (xs ++ (c ∷ zs))
    → b ≡ c
unfolding fnv1a_64
fnv1a_64_one_byte xs zs b c bs cs e =
    let h = fnv1a_from offset_basis xs in
    let at = λ (d : ℕ). fnv1a_from-append offset_basis xs (d ∷ zs) in
    step_byte h b c (omega arith) (omega arith) (
      from_hash (fnv1a_step h b) (fnv1a_step h c) zs (fnv1a_step_lt h b) (fnv1a_step_lt h c)
        (sym (at b) ∙ e ∙ at c))
