-- ===== src/Manager/Schedules.antt =====
-- Any number of concurrent requests to `transition_session`
-- (controller/src/game_session_manager/mod.rs), under any schedule of their atomic steps.
use mathlib.Core.Path.{subst}
use Prim.Native.Nat.{min}
use pokemon_rs.Prelude.{
  ℕ, zero, suc, ◌+◌, ◌≤◌, ◌≡◌, refl, sym, ◌∙◌, ◌≢◌, inl, inr, Option, none, some, List, [], ◌∷◌,
  arith, nat_beq_iff, Option-cases, All, ok, err, nat_eq,
}
use pokemon_rs.Prelude.Schedule.{step_at}
use pokemon_rs.StateEngine.{GameState, transition}
use pokemon_rs.StateEngine.Graph.{transition-cases}
use pokemon_rs.Api.{Uuid, SessionId, Session}
use pokemon_rs.Domain.{SessionRepository, not_found, invalid_transition}
use pokemon_rs.Domain.Laws.{IsSessionRepository}
use pokemon_rs.Manager.Laws.{transition_session_lem, expected, stored, decide_transition_lem}
use pokemon_rs.Manager.{transition_session, decide_transition}
use pokemon_rs.Manager.Race.{Phase, asked, decided, answered, Thread, advance, step}

-- Whose turn it is: the request that is watched, or another one, by its place.
pub data Turn : Type 0 where
  own : Turn
  other : ℕ → Turn

abbrev pub own_turns : List Turn → ℕ
own_turns [] = 0
own_turns (own ∷ ts) = suc (own_turns ts)
own_turns (other n ∷ ts) = own_turns ts

module _ {F S : Type 0} (repo : SessionRepository F S) where
  abbrev pub run_turns : List Turn → Thread F → List (Thread F) → S → S × Thread F
  run_turns [] t others s = (s, t)
  run_turns (own ∷ turns) t others s = let (s', t') = step repo t s in run_turns turns t' others s'
  run_turns (other n ∷ turns) t others s =
      let (s', others') = step_at (step repo) n others s in run_turns turns t others' s'

-- How far a request has come.
abbrev pub rank : {F : Type 0} → Phase F → ℕ
rank asked = 0
rank (decided st) = 1
rank (answered r) = 2

-- What a phase says of the request and of its session, `old` at the start and `now` now.
abbrev Progress :
    {F : Type 0}
    → SessionId
    → GameState
    → Option (Session F)
    → Option (Session F)
    → Phase F
    → Type 0
Progress id to old now asked = now ≡ old
Progress {F} id to old now (decided st) =
    (x : Session F) × (now ≡ old) × (old ≡ some x) × (transition x.state to ≡ ok st)
Progress id to old now (answered r) = (r ≡ expected id to old) × (now ≡ stored old r)

Progress-at :
    {F : Type 0} (id id' : SessionId) (to to' : GameState) (old : Option (Session F))
    (now : SessionId → Option (Session F)) (p : Phase F)
    → id ≡ id'
    → to ≡ to'
    → Progress id to old (now id) p
    → Progress id' to' old (now id') p
Progress-at id id' to to' old now p e e' h =
    subst (λ k. Progress k to' old (now k) p) e (subst (λ g. Progress id g old (now id) p) e' h)

module _ {F S : Type 0} (repo : SessionRepository F S) (view : S → Uuid → Option (Session F))
    (laws : IsSessionRepository repo view) where
  -- A step of a request touches no other session, and keeps what it asks for.
  advance-frame :
      (p : Phase F) (t : Thread F) (s : S) (j : Uuid)
      → t.id ≢ j
      → let (s', t') = advance repo p t s in
        (view s' j ≡ view s j) × (t'.id ≡ t.id) × (t'.to ≡ t.to)
  unfolding advance
  advance-frame asked t s j apart = elim (Option-cases (view s t.id)) [
    | inl missing ↦ ground (arith, decide_transition_lem repo view laws t.id t.to s)
    | inr (x, found) ↦ elim (transition-cases x.state t.to) [
      | inl granted ↦ ground (arith, decide_transition_lem repo view laws t.id t.to s)
      | inr refused ↦ ground (arith, decide_transition_lem repo view laws t.id t.to s)
    ]
  ]
  advance-frame (decided st) t s j apart = elim (Option-cases (view s t.id)) [
    | inl missing ↦ ground (arith, laws.update_missing t.id st s missing)
    | inr (x, found) ↦
        (ground (arith, nat_beq_iff t.id j, laws.view-update t.id st s x j found), refl, refl)
  ]
  advance-frame (answered r) t s j apart = (refl, refl, refl)

  advance-Progress :
      (p : Phase F) (t : Thread F) (s : S) (old : Option (Session F))
      → t.phase ≡ p
      → Progress t.id t.to old (view s t.id) p
      → let (s', t') = advance repo p t s in
        (t'.id ≡ t.id)
        × (t'.to ≡ t.to)
        × Progress t.id t.to old (view s' t.id) t'.phase
        × (min 2 (suc (rank p)) ≤ rank t'.phase)
  unfolding advance
  advance-Progress asked t s old at h = elim (Option-cases (view s t.id)) [
    | inl missing ↦
        let none_ : old ≡ none = sym h ∙ missing in
        let d : decide_transition repo t.id t.to s ≡ (s, err (not_found t.id)) =
          ground (arith, decide_transition_lem repo view laws t.id t.to s) in
        rw d (refl, refl, (rw none_ refl, h), omega arith)
    | inr (x, found) ↦
        let some_ : old ≡ some x = sym h ∙ found in
        elim (transition-cases x.state t.to) [
          | inl granted ↦
              let d : decide_transition repo t.id t.to s ≡ (s, ok t.to) =
                ground (arith, decide_transition_lem repo view laws t.id t.to s) in
              rw d (refl, refl, (x, h, some_, granted), omega arith)
          | inr refused ↦
              let d : decide_transition repo t.id t.to s ≡ (s, err (invalid_transition x.state)) =
                ground (arith, decide_transition_lem repo view laws t.id t.to s) in
              rw d (refl, refl, (rw (some_, refused, expected) refl, h), omega arith)
        ]
  ]
  advance-Progress (decided st) t s old at (x, same, was, granted) =
      let found : view s t.id ≡ some x = same ∙ was in
      let answer : (repo.update_state t.id st s).1 ≡ ok (record x { state = st }) =
        laws.update_found t.id st s x found in
      let held : view (repo.update_state t.id st s).0 t.id ≡ some (record x { state = st }) =
        ground (arith, laws.view-update t.id st s x t.id found) in
      rw answer (refl, refl, (rw (was, granted, expected) refl, held), omega arith)
  advance-Progress (answered r) t s old at h = rw at (refl, refl, h, omega arith)

  step_at-frame :
      (n : ℕ) (ts : List (Thread F)) (s : S) (j : Uuid)
      → All (λ (t : Thread F). t.id ≢ j) ts
      → let (s', ts') = step_at (step repo) n ts s in
        (view s' j ≡ view s j) × All (λ (t : Thread F). t.id ≢ j) ts'
  step_at-frame n [] s j apart = (refl, tt)
  step_at-frame zero (t ∷ ts) s j (apart, rest) =
      let (same, id, to) = advance-frame t.phase t s j apart in
      (same, (λ e. apart (sym id ∙ e), rest))
  step_at-frame (suc n) (t ∷ ts) s j (apart, rest) =
      let (same, rest') = step_at-frame n ts s j rest in (same, (apart, rest'))

  run_turns-Progress :
      (turns : List Turn) (t : Thread F) (others : List (Thread F)) (s : S) (id : SessionId)
      (to : GameState) (old : Option (Session F))
      → t.id ≡ id
      → t.to ≡ to
      → All (λ (o : Thread F). o.id ≢ id) others
      → Progress id to old (view s id) t.phase
      → let (s', t') = run_turns repo turns t others s in
        Progress id to old (view s' id) t'.phase
        × (min 2 (rank t.phase + own_turns turns) ≤ rank t'.phase)
  run_turns-Progress [] t others s id to old eid eto apart h = (h, omega arith)
  run_turns-Progress (own ∷ turns) t others s id to old eid eto apart h =
      let (eid', eto', h', further) = advance-Progress t.phase t s old refl (rw (eid, eto) h) in
      let (s', t') = step repo t s in
      let (done, count) =
        run_turns-Progress turns t' others s' id to old (eid' ∙ eid) (eto' ∙ eto) apart
          (Progress-at t.id id t.to to old (view s') t'.phase eid eto h') in
      (done, omega (arith, further, count))
  run_turns-Progress (other n ∷ turns) t others s id to old eid eto apart h =
      let (same, apart') = step_at-frame n others s id apart in
      let (s', others') = step_at (step repo) n others s in
      run_turns-Progress turns t others' s' id to old eid eto apart' (rw same h)

  -- Over a repository that keeps the trait's promises, a request that runs among any others for
  -- other sessions, their steps in any order, and that has had its two turns, is answered as
  -- `transition_session` alone would answer it, and its session is stored as that call would leave
  -- it.
  pub run_turns-expected :
      (turns : List Turn) (id : SessionId) (to : GameState) (others : List (Thread F)) (s : S)
      → All (λ (o : Thread F). o.id ≢ id) others
      → 2 ≤ own_turns turns
      → let (s', t) = run_turns repo turns (record { id = id; to = to; phase = asked }) others s in
        let (s_alone, r) = transition_session repo id to s in
        (t.phase ≡ answered r) × (view s' id ≡ view s_alone id)
  run_turns-expected turns id to others s apart two =
      let start : Thread F = record { id = id; to = to; phase = asked } in
      let (s', t) = run_turns repo turns start others s in
      let (h, count) =
        run_turns-Progress turns start others s id to (view s id) refl refl apart refl in
      let done : 2 ≤ rank t.phase = omega (arith, count) in finish t.phase s' h done
    where
      finish :
          (p : Phase F) (s' : S)
          → Progress id to (view s id) (view s' id) p
          → 2 ≤ rank p
          → let (s_alone, r) = transition_session repo id to s in
            (p ≡ answered r) × (view s' id ≡ view s_alone id)
      finish asked s' h done = absurd (omega arith)
      finish (decided st) s' h done = absurd (omega arith)
      finish (answered r) s' (e, held) done =
          let (answer, after) = transition_session_lem repo view laws id id to s in
          ground (arith, answer, after, e, held)
