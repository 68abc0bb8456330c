-- ===== src/Manager/Termination.antt =====
-- Concurrent requests to `transition_session` (controller/src/game_session_manager/mod.rs) come to
-- an end: no request waits for another.
use Prim.Native.Nat.{min}
use pokemon_rs.Prelude.{
  ℕ, suc, ◌-◌, ◌≤◌, ◌<◌, ◌≡◌, refl, inl, inr, List, [], ◌∷◌, map, arith, length, All, All-map,
  Result, Result-cases,
}
use pokemon_rs.Prelude.Schedule.{turns_of, interleave-map, interleave-done}
use pokemon_rs.Api.{SessionId, Session}
use pokemon_rs.Domain.{DomainError, SessionRepository}
use pokemon_rs.Manager.{decide_transition}
use pokemon_rs.Manager.Race.{Phase, asked, decided, answered, Thread, advance, step}
use pokemon_rs.Manager.Schedules.{rank}
use pokemon_rs.Manager.Interleavings.{interleave_all}

abbrev pub IsAnswered : {F : Type 0} → Thread F → Type 0
IsAnswered {F} t = (r : Result DomainError (Session F)) × (t.phase ≡ answered r)

abbrev pub ids : {F : Type 0} → List (Thread F) → List SessionId
ids ts = map (λ t. t.id) ts

-- The steps that are left to a request.
abbrev left : {F : Type 0} → Thread F → ℕ
left t = 2 - rank t.phase

left_le : {F : Type 0} (ts : List (Thread F)) → All (λ (t : Thread F). left t ≤ 2) ts
left_le [] = tt
left_le (t ∷ ts) = (omega arith, left_le ts)

IsAnswered-rank :
    {F : Type 0} (t : Thread F) (p : Phase F) → t.phase ≡ p → 2 ≤ rank p → IsAnswered t
IsAnswered-rank t asked e h = absurd (omega arith)
IsAnswered-rank t (decided st) e h = absurd (omega arith)
IsAnswered-rank t (answered r) e h = (r, e)

module _ {F S : Type 0} (repo : SessionRepository F S) where
  -- A turn brings a request further, whatever the repository does.
  advance-rank :
      (p : Phase F) (t : Thread F) (s : S)
      → t.phase ≡ p
      → min 2 (suc (rank p)) ≤ rank (advance repo p t s).1.phase
  unfolding advance
  advance-rank asked t s at = elim (Result-cases (decide_transition repo t.id t.to s).1) [
    | inl (st, granted) ↦ ground arith
    | inr (e, refused) ↦ ground arith
  ]
  advance-rank (decided st) t s at = omega arith
  advance-rank (answered r) t s at = rw at (omega arith)

  advance-id : (p : Phase F) (t : Thread F) (s : S) → (advance repo p t s).1.id ≡ t.id
  unfolding advance
  advance-id asked t s = elim (Result-cases (decide_transition repo t.id t.to s).1) [
    | inl (st, granted) ↦ ground arith
    | inr (e, refused) ↦ ground arith
  ]
  advance-id (decided st) t s = refl
  advance-id (answered r) t s = refl

  -- Any number of concurrent requests are all answered, each for the session that it names, once a
  -- schedule, in any order, has given each of them two turns, over any repository.
  pub interleave_all-IsAnswered :
      (turns : List ℕ) (ts : List (Thread F)) (s : S)
      → ((n : ℕ) → n < length ts → 2 ≤ turns_of n turns)
      → let ts' = (interleave_all repo turns ts s).1 in All IsAnswered ts' × (ids ts' ≡ ids ts)
  interleave_all-IsAnswered turns ts s fair = (
    All-map (λ t. left t ≡ 0) IsAnswered (interleave_all repo turns ts s).1
        (λ t h. IsAnswered-rank t t.phase refl (omega (arith, h)))
        (interleave-done (step repo) left (λ t s'. omega (arith, advance-rank t.phase t s' refl)) 2
          turns ts s (left_le ts) fair),
    interleave-map (step repo) (λ t. t.id) (λ t s'. advance-id t.phase t s') turns ts s,
  )
