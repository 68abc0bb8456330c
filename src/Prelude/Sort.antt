-- ===== src/Prelude/Sort.antt =====
-- `slice::sort_by`, a stable sort: the comparator enters through its test for `Greater`.
use mathlib.Core.List.{Perm}
use mathlib.Core.List.Perm
use pokemon_rs.Prelude.Perms.{perm_snoc}
use pokemon_rs.Prelude.{
  ◌≡◌, refl, inl, inr, Bool, true, false, not, ◌&&◌, List, [], ◌∷◌, ◌++◌, arith, if◌then◌else◌,
  Bool-cases, filter, All,
}

module _ {A : Type 0} (greater : A → A → Bool) where
  unfoldable pub insert_sorted : A → List A → List A
  insert_sorted x [] = x ∷ []
  insert_sorted x (y ∷ ys) =
      let rest = insert_sorted x ys in if greater x y then y ∷ rest else x ∷ y ∷ ys

  unfoldable pub sort_by : List A → List A
  unfolding insert_sorted
  sort_by [] = []
  sort_by (x ∷ xs) = insert_sorted x (sort_by xs)

  -- Every element is no greater than each later one.
  abbrev pub Sorted : List A → Type 0
  Sorted [] = Unit
  Sorted (x ∷ xs) = All (λ y. greater x y ≡ false) xs × Sorted xs

  -- Neither element is greater than the other.
  abbrev pub ties : A → A → Bool
  ties a x = not (greater a x) && not (greater x a)

  insert_sorted-perm : (x : A) (xs : List A) → Perm (insert_sorted x xs) (x ∷ xs)
  unfolding insert_sorted
  insert_sorted-perm x [] = Perm.refl (x ∷ [])
  insert_sorted-perm x (y ∷ ys) = elim (Bool-cases (greater x y)) [
    | inl more ↦ rw more (Perm.trans (Perm.cons y (insert_sorted-perm x ys)) (Perm.swap x y ys))
    | inr less ↦ rw less (Perm.refl (x ∷ y ∷ ys))
  ]

  -- The result has the same elements, as often.
  pub sort_by-perm : (xs : List A) → Perm (sort_by xs) xs
  unfolding sort_by
  sort_by-perm [] = Perm.refl []
  sort_by-perm (x ∷ xs) =
      Perm.trans (insert_sorted-perm x (sort_by xs)) (Perm.cons x (sort_by-perm xs))

  -- An element that is added at the end is one more element of the result.
  pub sort_by-snoc : (xs : List A) (x : A) → Perm (sort_by (xs ++ (x ∷ []))) (x ∷ sort_by xs)
  sort_by-snoc xs x =
      Perm.trans (sort_by-perm (xs ++ (x ∷ [])))
        (Perm.trans (perm_snoc xs x) (Perm.cons x (Perm.symm (sort_by-perm xs))))

  module _ (asym : (x y : A) → greater x y ≡ true → greater y x ≡ false)
      (trans : (x y z : A) → greater x y ≡ false → greater y z ≡ false → greater x z ≡ false) where
    All-insert_sorted :
        (z x : A) (xs : List A)
        → greater z x ≡ false
        → All (λ y. greater z y ≡ false) xs
        → All (λ y. greater z y ≡ false) (insert_sorted x xs)
    unfolding insert_sorted
    All-insert_sorted z x [] h a = (h, tt)
    All-insert_sorted z x (y ∷ ys) h (b, a) = ground (arith, All-insert_sorted z x ys h a)

    All-trans :
        (x y : A) (xs : List A)
        → greater x y ≡ false
        → All (λ w. greater y w ≡ false) xs
        → All (λ w. greater x w ≡ false) xs
    All-trans x y [] h a = tt
    All-trans x y (w ∷ ws) h (b, a) = (trans x y w h b, All-trans x y ws h a)

    insert_sorted-Sorted : (x : A) (xs : List A) → Sorted xs → Sorted (insert_sorted x xs)
    unfolding insert_sorted
    insert_sorted-Sorted x [] s = (tt, tt)
    insert_sorted-Sorted x (y ∷ ys) (a, s) = elim (Bool-cases (greater x y)) [
      | inl more ↦ rw more (All-insert_sorted y x ys (asym x y more) a, insert_sorted-Sorted x ys s)
      | inr less ↦ rw less ((less, All-trans x y ys less a), (a, s))
    ]

    -- The result is in order.
    pub sort_by-Sorted : (xs : List A) → Sorted (sort_by xs)
    unfolding sort_by
    sort_by-Sorted [] = tt
    sort_by-Sorted (x ∷ xs) = insert_sorted-Sorted x (sort_by xs) (sort_by-Sorted xs)

    filter-insert_sorted :
        (a x : A) (xs : List A) → filter (ties a) (insert_sorted x xs) ≡ filter (ties a) (x ∷ xs)
    unfolding insert_sorted
    filter-insert_sorted a x [] = refl
    filter-insert_sorted a x (y ∷ ys) = ground (arith, filter-insert_sorted a x ys, trans x a y)

    -- Elements that tie keep their order.
    pub sort_by_stable : (a : A) (xs : List A) → filter (ties a) (sort_by xs) ≡ filter (ties a) xs
    unfolding sort_by
    sort_by_stable a [] = refl
    sort_by_stable a (x ∷ xs) =
        ground (arith, filter-insert_sorted a x (sort_by xs), sort_by_stable a xs)
