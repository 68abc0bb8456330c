-- ===== src/Prelude/Perms.antt =====
-- Permutations of lists with one more element, and under a Boolean filter.
use mathlib.Core.Path.{subst}
use mathlib.Core.Logic.{∥∥₁_elim}
use mathlib.Core.List.{
  perm_append_comm, append_assoc, Perm, Perm-prop, Permᴰ, perm_middle, append-nil,
}
use mathlib.Core.List.Perm
use pokemon_rs.Prelude.{inl, inr, Bool, List, [], ◌∷◌, ◌++◌, Bool-cases, filter}

pub perm_snoc : {A : Type 0} (xs : List A) (x : A) → Perm (xs ++ (x ∷ [])) (x ∷ xs)
perm_snoc xs x =
    Perm.trans (perm_middle xs []) (Perm.cons x (subst (Perm (xs ++ [])) (append-nil xs) Perm.rfl))

module _ {A : Type 0} (p : A → Bool) where
  filter-cons :
      (a : A) (xs ys : List A)
      → Perm (filter p xs) (filter p ys)
      → Perm (filter p (a ∷ xs)) (filter p (a ∷ ys))
  filter-cons a xs ys h = elim (Bool-cases (p a)) [
    | inl kept ↦ rw kept (Perm.cons a h)
    | inr dropped ↦ rw dropped h
  ]

  filter-swap : (a b : A) (xs : List A) → Perm (filter p (a ∷ b ∷ xs)) (filter p (b ∷ a ∷ xs))
  filter-swap a b xs = elim (Bool-cases (p a)) [
    | inl kept ↦ elim (Bool-cases (p b)) [
      | inl kept' ↦ rw (kept, kept') (Perm.swap b a (filter p xs))
      | inr dropped ↦ rw (kept, dropped) Perm.rfl
    ]
    | inr dropped ↦ elim (Bool-cases (p b)) [
      | inl kept ↦ rw (dropped, kept) Perm.rfl
      | inr dropped' ↦ rw (dropped, dropped') Perm.rfl
    ]
  ]

  filter_steps : {xs ys : List A} → Permᴰ xs ys → Perm (filter p xs) (filter p ys)
  filter_steps Permᴰ.nil = Perm.nil
  filter_steps (Permᴰ.cons {a = a} {l₁ = xs} {l₂ = ys} e h) =
      subst (λ b. Perm (filter p (a ∷ xs)) (filter p (b ∷ ys))) e
        (filter-cons a xs ys (filter_steps h))
  filter_steps (Permᴰ.swap {a = a} {b = b} {a' = a'} {b' = b'} {l = xs} e f) =
      subst (λ c. Perm (filter p (a ∷ b ∷ xs)) (filter p (a' ∷ c ∷ xs))) e
        (subst (λ c. Perm (filter p (a ∷ b ∷ xs)) (filter p (c ∷ a ∷ xs))) f (filter-swap a b xs))
  filter_steps (Permᴰ.trans h k) = Perm.trans (filter_steps h) (filter_steps k)

  pub filter-Perm : {xs ys : List A} → Perm xs ys → Perm (filter p xs) (filter p ys)
  filter-Perm h = ∥∥₁_elim h Perm-prop filter_steps

module _ {A : Type 0} where
  pub perm_front : (ws xs ys : List A) → Perm (ws ++ (xs ++ ys)) (xs ++ (ws ++ ys))
  perm_front ws xs ys =
      subst (λ l. Perm l (xs ++ (ws ++ ys))) (append_assoc ws xs ys)
        (subst (Perm (ws ++ xs ++ ys)) (append_assoc xs ws ys)
          (Perm.append_right ys (perm_append_comm ws xs)))
