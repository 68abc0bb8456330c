-- ===== src/StateEngine/Graph.antt =====
-- The canonical session machine as a relation, and `transition`
-- (controller/src/state_engine/mod.rs) against it.
use mathlib.Core.Path.{subst}
use pokemon_rs.Prelude.{
  ℕ, ◌≤◌, ◌≡◌, refl, sym, ap, ◌∙◌, ◌≢◌, ◌↔◌, ◌⊎◌, inl, inr, List, [], ◌∷◌, arith, Result, ok, err,
}
use pokemon_rs.StateEngine.{
  GameState, idle, initialized, probing, playing, evaluating, completed, StateError,
  invalid_transition, transition,
}

infix 40 ◌⟶◌
pub data ◌⟶◌ : GameState → GameState → Type 0 where
  start : idle ⟶ initialized
  probe : initialized ⟶ probing
  play : initialized ⟶ playing
  play_probed : probing ⟶ playing
  evaluate : playing ⟶ evaluating
  replay : evaluating ⟶ playing
  complete : evaluating ⟶ completed

infix 40 ◌⟶*◌
pub data ◌⟶*◌ (s : GameState) : GameState → Type 0 where
  here : s ⟶* s
  next : {t u : GameState} → s ⟶* t → t ⟶ u → s ⟶* u

ruleset edges = (start, probe, play, play_probed, evaluate, replay, complete)

Edge-transition : {from to : GameState} → from ⟶ to → transition from to ≡ ok to
unfolding transition
Edge-transition start = refl
Edge-transition probe = refl
Edge-transition play = refl
Edge-transition play_probed = refl
Edge-transition evaluate = refl
Edge-transition replay = refl
Edge-transition complete = refl

transition_self : (s : GameState) → transition s s ≡ ok s
unfolding transition
transition_self idle = refl
transition_self _ = refl

pub transition-ok :
    (from to r : GameState) → transition from to ≡ ok r → (r ≡ to) × ((from ≡ to) ⊎ (from ⟶ to))
unfolding transition
transition-ok idle to r h = grind (arith, edges)
transition-ok initialized to r h = grind (arith, edges)
transition-ok _ to r h = grind (arith, edges)

-- A transition is granted exactly when it stays in the state or follows an edge of the canonical
-- machine, and the result is the requested state.
pub transition_iff :
    (from to r : GameState) → (transition from to ≡ ok r) ↔ ((r ≡ to) × ((from ≡ to) ⊎ (from ⟶ to)))
transition_iff from to r = (transition-ok from to r, granted)
  where
    granted : (r ≡ to) × ((from ≡ to) ⊎ (from ⟶ to)) → transition from to ≡ ok r
    granted (e, inl same) = rw (e, same) (transition_self to)
    granted (e, inr edge) = rw e (Edge-transition edge)

pub transition-cases :
    (from to : GameState)
    → (transition from to ≡ ok to) ⊎ (transition from to ≡ err (invalid_transition from to))
unfolding transition
transition-cases from to = ground arith

-- A refusal names the two states, and is given exactly when the states differ and no edge of the
-- canonical machine joins them.
pub transition-err_iff :
    (from to : GameState) (e : StateError)
    → (transition from to ≡ err e)
      ↔ ((e ≡ invalid_transition from to) × (from ≢ to) × ¬ (from ⟶ to))
transition-err_iff from to e = (refused, refuse)
  where
    refused :
        transition from to ≡ err e → (e ≡ invalid_transition from to) × (from ≢ to) × ¬ (from ⟶ to)
    refused h = elim (transition-cases from to) [
      | inl granted ↦ absurd (cc)
      | inr r ↦ (
        cc,
        λ same. cc ((transition_iff from to to).1 (refl, inl same)),
        λ edge. cc (Edge-transition edge),
      )
    ]

    refuse :
        (e ≡ invalid_transition from to) × (from ≢ to) × ¬ (from ⟶ to) → transition from to ≡ err e
    refuse (why, differ, no_edge) = elim (transition-cases from to) [
      | inl granted ↦ elim ((transition_iff from to to).0 granted).1 [
        | inl same ↦ absurd (differ same)
        | inr edge ↦ absurd (no_edge edge)
      ]
      | inr r ↦ rw why r
    ]

-- The states of a session to which the transitions of a list are applied in turn.
abbrev pub walk : GameState → List GameState → Result StateError GameState
walk s [] = ok s
walk s (t ∷ ts) = elim (transition s t) [ ok s' ↦ walk s' ts | err e ↦ err e ]

-- From every state a session can be completed by granted transitions.
pub completable : (s : GameState) → (path : List GameState) × (walk s path ≡ ok completed)
unfolding transition
completable idle = (initialized ∷ playing ∷ evaluating ∷ completed ∷ [], refl)
completable initialized = (playing ∷ evaluating ∷ completed ∷ [], refl)
completable probing = (playing ∷ evaluating ∷ completed ∷ [], refl)
completable playing = (evaluating ∷ completed ∷ [], refl)
completable evaluating = (completed ∷ [], refl)
completable completed = ([], refl)

-- How far a session has come; betting again after a spin returns from `evaluating` to `playing`.
abbrev pub stage : GameState → ℕ
stage idle = 0
stage initialized = 1
stage probing = 2
stage playing = 3
stage evaluating = 3
stage completed = 4

pub transition-stage_le : (from to r : GameState) → transition from to ≡ ok r → stage from ≤ stage r
unfolding transition
transition-stage_le from to r h = ground arith

walk-stage_mono :
    (s : GameState) (path : List GameState) (r : GameState) → walk s path ≡ ok r → stage s ≤ stage r
walk-stage_mono s [] r h = ground arith
walk-stage_mono s (t ∷ path) r h = elim (transition-cases s t) [
  | inl g ↦
      let rest : walk t path ≡ ok r = rw (g, walk) at h in
      omega (arith, transition-stage_le s t t g, walk-stage_mono t path r rest)
  | inr e ↦
      let stuck : ◌≡◌ {A = Result StateError GameState} (err (invalid_transition s t)) (ok r) =
        rw (e, walk) at h in
      cc
]

last_stage : (r : GameState) → 4 ≤ stage r → r ≡ completed
last_stage r h = ground arith

-- However many transitions are granted, a session never falls back to an earlier stage; in
-- particular a completed session stays completed.
pub walk-stage_le :
    (s : GameState) (path : List GameState) (r : GameState)
    → walk s path ≡ ok r
    → (stage s ≤ stage r) × (s ≡ completed → r ≡ completed)
walk-stage_le s path r h = (
  walk-stage_mono s path r h,
  λ done. last_stage r (omega (arith, walk-stage_mono s path r h, ap stage done)),
)

-- A granted transition moves along the edges.
pub Reach-transition :
    {s : GameState} (from to r : GameState) → s ⟶* from → transition from to ≡ ok r → s ⟶* r
Reach-transition {s} from to r reach h =
    let (e, step) = transition-ok from to r h in
    elim step [
      | inl same ↦ subst (λ u. s ⟶* u) (same ∙ sym e) reach
      | inr edge ↦ next reach (subst (λ u. from ⟶ u) (sym e) edge)
    ]

-- No edge leads to `idle`.
pub Reach-ne-idle : {u : GameState} → initialized ⟶* u → u ≢ idle
Reach-ne-idle here = λ e. cc
Reach-ne-idle (next r start) = λ e. cc
Reach-ne-idle (next r _) = λ e. cc
