-- ===== src/Prelude/Schedule.antt =====
-- Threads of atomic steps on a shared state, under a schedule that says whose turn it is.
use pokemon_rs.Prelude.{
  ℕ, zero, suc, ◌-◌, ◌≤◌, ◌<◌, ◌≡◌, refl, ap, ◌∙◌, inl, inr, List, [], ◌∷◌, ◌++◌, map, arith, ltb,
  nat_beq, if◌then◌else◌, Bool-cases, length, All,
}

-- How often a schedule gives the turn to the place.
abbrev pub turns_of : ℕ → List ℕ → ℕ
turns_of n [] = 0
turns_of n (m ∷ turns) = let rest = turns_of n turns in if nat_beq m n then suc rest else rest

pub map-All :
    {A B : Type 0} (f : A → B) (P : A → Type 0) (G : B → Type 0)
    → ((x : A) → P x → G (f x))
    → (xs : List A) → All P xs
    → All G (map f xs)
map-All f P G h [] ps = tt
map-All f P G h (x ∷ xs) (p, ps) = (h x p, map-All f P G h xs ps)

pub map-All_always :
    {A B : Type 0} (f : A → B) (G : B → Type 0)
    → ((x : A) → G (f x))
    → (xs : List A) → All G (map f xs)
map-All_always f G h [] = tt
map-All_always f G h (x ∷ xs) = (h x, map-All_always f G h xs)

module _ {S T : Type 0} (step : T → S → S × T) where
  -- A step of the thread at a place; a place without a thread stands for an idle turn.
  abbrev pub step_at : ℕ → List T → S → S × List T
  step_at n [] s = (s, [])
  step_at zero (t ∷ ts) s = let (s', t') = step t s in (s', t' ∷ ts)
  step_at (suc n) (t ∷ ts) s = let (s', ts') = step_at n ts s in (s', t ∷ ts')

  abbrev pub interleave : List ℕ → List T → S → S × List T
  interleave [] ts s = (s, ts)
  interleave (n ∷ turns) ts s = let (s', ts') = step_at n ts s in interleave turns ts' s'

  -- So many steps of one thread.
  abbrev pub run_alone : ℕ → T → S → S × T
  run_alone zero t s = (s, t)
  run_alone (suc n) t s = let (s', t') = step t s in run_alone n t' s'

  module _ (I : S → Type 0) (G : T → Type 0)
      (one : (t : T) (s : S) → G t → I s → let (s', t') = step t s in I s' × G t') where
    step_at-kept :
        (n : ℕ) (ts : List T) (s : S)
        → All G ts
        → I s
        → let (s', ts') = step_at n ts s in I s' × All G ts'
    step_at-kept n [] s gs i = (i, tt)
    step_at-kept zero (t ∷ ts) s (g, gs) i = let (i', g') = one t s g i in (i', (g', gs))
    step_at-kept (suc n) (t ∷ ts) s (g, gs) i =
        let (i', gs') = step_at-kept n ts s gs i in (i', (g, gs'))

    -- What every step keeps, of the state and of its own thread, every schedule keeps.
    pub interleave-kept :
        (turns : List ℕ) (ts : List T) (s : S)
        → All G ts
        → I s
        → let (s', ts') = interleave turns ts s in I s' × All G ts'
    interleave-kept [] ts s gs i = (i, gs)
    interleave-kept (n ∷ turns) ts s gs i =
        let (s', ts') = step_at n ts s in
        let (i', gs') = step_at-kept n ts s gs i in interleave-kept turns ts' s' gs' i'

  module _ (Past I : S → Type 0) (G : T → Type 0)
      (one : (t : T) (s : S) → G t → Past s → I s → let (s', t') = step t s in I s' × G t') where
    step_at-kept_past :
        (n : ℕ) (ts : List T) (s : S)
        → All G ts
        → Past s
        → I s
        → let (s', ts') = step_at n ts s in I s' × All G ts'
    step_at-kept_past n [] s gs past i = (i, tt)
    step_at-kept_past zero (t ∷ ts) s (g, gs) past i =
        let (i', g') = one t s g past i in (i', (g', gs))
    step_at-kept_past (suc n) (t ∷ ts) s (g, gs) past i =
        let (i', gs') = step_at-kept_past n ts s gs past i in (i', (g, gs'))

    -- The same, where a step may use what holds of every state that the schedule comes through.
    pub interleave-kept_past :
        (turns : List ℕ) (ts : List T) (s : S)
        → ((earlier later : List ℕ) → turns ≡ earlier ++ later → Past (interleave earlier ts s).0)
        → All G ts
        → I s
        → let (s', ts') = interleave turns ts s in I s' × All G ts'
    interleave-kept_past [] ts s past gs i = (i, gs)
    interleave-kept_past (n ∷ turns) ts s past gs i =
        let (s', ts') = step_at n ts s in
        let (i', gs') = step_at-kept_past n ts s gs (past [] (n ∷ turns) refl) i in
        interleave-kept_past turns ts' s'
          (λ earlier later e. past (n ∷ earlier) later (ap (λ us. n ∷ us) e)) gs' i'

  module _ {B : Type 0} (part : T → B) (one : (t : T) (s : S) → part (step t s).1 ≡ part t) where
    step_at-map : (n : ℕ) (ts : List T) (s : S) → map part (step_at n ts s).1 ≡ map part ts
    step_at-map n [] s = refl
    step_at-map zero (t ∷ ts) s = ap (λ b. b ∷ map part ts) (one t s)
    step_at-map (suc n) (t ∷ ts) s = ap (λ bs. part t ∷ bs) (step_at-map n ts s)

    -- What no step changes of its thread, no schedule changes.
    pub interleave-map :
        (turns : List ℕ) (ts : List T) (s : S) → map part (interleave turns ts s).1 ≡ map part ts
    interleave-map [] ts s = refl
    interleave-map (n ∷ turns) ts s =
        let (s', ts') = step_at n ts s in interleave-map turns ts' s' ∙ step_at-map n ts s

  module _ (left : T → ℕ) (one : (t : T) (s : S) → left (step t s).1 ≤ left t - 1) where
    -- The steps that are left to the thread at a place.
    abbrev left_at : ℕ → List T → ℕ
    left_at n [] = 0
    left_at zero (t ∷ ts) = left t
    left_at (suc n) (t ∷ ts) = left_at n ts

    step_at-left :
        (m n : ℕ) (ts : List T) (s : S)
        → left_at n (step_at m ts s).1 ≤ left_at n ts - (if nat_beq m n then 1 else 0)
    step_at-left m n [] s = ground arith
    step_at-left zero zero (t ∷ ts) s = ground (arith, one t s)
    step_at-left zero (suc n) (t ∷ ts) s = ground arith
    step_at-left (suc m) zero (t ∷ ts) s = ground arith
    step_at-left (suc m) (suc n) (t ∷ ts) s = ground (arith, step_at-left m n ts s)

    interleave-left :
        (turns : List ℕ) (n : ℕ) (ts : List T) (s : S)
        → left_at n (interleave turns ts s).1 ≤ left_at n ts - turns_of n turns
    interleave-left [] n ts s = omega arith
    interleave-left (m ∷ turns) n ts s =
        let (s', ts') = step_at m ts s in
        ground (arith, step_at-left m n ts s, interleave-left turns n ts' s')

    left_at-beyond : (n : ℕ) (ts : List T) → length ts ≤ n → left_at n ts ≡ 0
    left_at-beyond n [] h = refl
    left_at-beyond zero (t ∷ ts) h = absurd (omega arith)
    left_at-beyond (suc n) (t ∷ ts) h = left_at-beyond n ts (omega arith)

    left_at_le :
        (bound : ℕ) (ts : List T) (n : ℕ) → All (λ t. left t ≤ bound) ts → left_at n ts ≤ bound
    left_at_le bound [] n h = omega arith
    left_at_le bound (t ∷ ts) zero (h, hs) = h
    left_at_le bound (t ∷ ts) (suc n) (h, hs) = left_at_le bound ts n hs

    all_done : (ts : List T) → ((n : ℕ) → left_at n ts ≡ 0) → All (λ t. left t ≡ 0) ts
    all_done [] h = tt
    all_done (t ∷ ts) h = (h 0, all_done ts (λ n. h (suc n)))

    -- A schedule that gives every thread as many turns as it has steps left leaves none to do.
    pub interleave-done :
        (bound : ℕ) (turns : List ℕ) (ts : List T) (s : S)
        → All (λ t. left t ≤ bound) ts
        → ((n : ℕ) → n < length ts → bound ≤ turns_of n turns)
        → All (λ t. left t ≡ 0) (interleave turns ts s).1
    interleave-done bound turns ts s few fair = all_done (interleave turns ts s).1 (λ n.
        elim (Bool-cases (ltb n (length ts))) [
          | inl there ↦ omega (
            arith,
            interleave-left turns n ts s,
            fair n (ground arith),
            left_at_le bound ts n few,
          )
          | inr beyond ↦
              let none_left = left_at-beyond n ts (ground arith) in
              omega (arith, interleave-left turns n ts s, none_left)
        ])
