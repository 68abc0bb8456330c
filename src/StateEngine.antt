-- ===== src/StateEngine.antt =====
-- controller/src/state_engine/mod.rs: the session states and the transition check.
pub mod Graph
use pokemon_rs.Prelude.{
  ◌≡◌, ◌↔◌, Bool, true, false, List, [], ◌∷◌, arith, if◌then◌else◌, BoolEq, ◌==◌, Result, ok, err,
}

pub data GameState : Type 0 where
  idle initialized probing playing evaluating completed : GameState

-- The derived `PartialEq`.
abbrev pub state_beq : GameState → GameState → Bool
state_beq idle idle = true
state_beq initialized initialized = true
state_beq probing probing = true
state_beq playing playing = true
state_beq evaluating evaluating = true
state_beq completed completed = true
state_beq _ _ = false

pub state_beq_iff : (a b : GameState) → (state_beq a b ≡ true) ↔ (a ≡ b)
state_beq_iff a b = ground arith

instance abbrev pub state_eq : BoolEq GameState
state_eq = record { eqb = state_beq; eqb_iff = state_beq_iff }

pub data StateError : Type 0 where
  invalid_transition : GameState → GameState → StateError
  not_found : StateError

abbrev pub allowed : List (GameState × List GameState)
allowed =
    (idle, initialized ∷ [])
    ∷ (initialized, probing ∷ playing ∷ [])
    ∷ (probing, playing ∷ [])
    ∷ (playing, evaluating ∷ [])
    ∷ (evaluating, playing ∷ completed ∷ [])
    ∷ (completed, [])
    ∷ []

-- `iter().find(|(s, _)| *s == from).map(|(_, next)| *next).unwrap_or(&[])`
abbrev pub next_states : GameState → List (GameState × List GameState) → List GameState
next_states from [] = []
next_states from ((s, next) ∷ rest) = if s == from then next else next_states from rest

abbrev pub contains : List GameState → GameState → Bool
contains [] s = false
contains (t ∷ ts) s = if t == s then true else contains ts s

unfoldable pub transition : GameState → GameState → Result StateError GameState
transition from to =
    if from == to
    then ok to
    else if contains (next_states from allowed) to
    then ok to
    else err (invalid_transition from to)
