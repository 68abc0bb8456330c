-- ===== src/Manager/Interleavings.antt =====
-- What every interleaving of concurrent requests to `transition_session`
-- (controller/src/game_session_manager/mod.rs) leaves true of the stored sessions.
use mathlib.Core.Path.{subst}
use mathlib.Core.Option.{some-injective}
use pokemon_rs.Prelude.{
  ℕ, ◌≡◌, refl, sym, ◌∙◌, ◌≢◌, inl, inr, Option, some, List, [], ◌∷◌, arith, Bool-cases,
  Option-cases, All, ◌==◌, ok, err, nat_eq,
}
use pokemon_rs.Prelude.Schedule.{interleave, interleave-kept}
use pokemon_rs.StateEngine.{GameState, initialized, idle}
use pokemon_rs.StateEngine.Graph.{transition-cases, ◌⟶*◌, Reach-transition, Reach-ne-idle}
use pokemon_rs.Api.{Uuid, SessionId, Session}
use pokemon_rs.Domain.{SessionRepository, not_found, invalid_transition}
use pokemon_rs.Domain.Laws.{IsSessionRepository}
use pokemon_rs.Manager.{decide_transition}
use pokemon_rs.Manager.Laws.{decide_transition_lem}
use pokemon_rs.Manager.Race.{Phase, asked, decided, answered, Thread, advance, step}

module _ {F S : Type 0} (repo : SessionRepository F S) where
  -- Any number of requests, under a schedule that says whose turn it is by the request's place.
  abbrev pub interleave_all : List ℕ → List (Thread F) → S → S × List (Thread F)
  interleave_all = interleave (step repo)

-- A state that a request has decided to write is one that sessions may be in.
abbrev Lawful : {F : Type 0} → Phase F → Type 0
Lawful asked = Unit
Lawful (decided st) = initialized ⟶* st
Lawful (answered r) = Unit

module _ {F S : Type 0} (repo : SessionRepository F S) (view : S → Uuid → Option (Session F))
    (laws : IsSessionRepository repo view) where
  abbrev Reachable : S → Type 0
  Reachable s = (j : Uuid) (x : Session F) → view s j ≡ some x → initialized ⟶* x.state

  update-Reachable :
      (id : SessionId) (st : GameState) (s : S)
      → Reachable s
      → initialized ⟶* st
      → Reachable (repo.update_state id st s).0
  update-Reachable id st s h reach j y held = elim (Option-cases (view s id)) [
    | inl missing ↦
        let same : repo.update_state id st s ≡ (s, err (not_found id)) =
          laws.update_missing id st s missing in
        h j y (rw same at held)
    | inr (x, found) ↦
        let looked = sym (laws.view-update id st s x j found) ∙ held in
        elim (Bool-cases (id == j)) [
          | inl mine ↦
              let new = some-injective _ _ (rw mine at looked) in
              subst (λ (z : Session F). initialized ⟶* z.state) new reach
          | inr foreign ↦ h j y (rw foreign at looked)
        ]
  ]

  advance-Reachable :
      (p : Phase F) (t : Thread F) (s : S)
      → t.phase ≡ p
      → Reachable s
      → Lawful p
      → let (s', t') = advance repo p t s in Reachable s' × Lawful t'.phase
  unfolding advance
  advance-Reachable asked t s at h ok_ = elim (Option-cases (view s t.id)) [
    | inl missing ↦
        let d : decide_transition repo t.id t.to s ≡ (s, err (not_found t.id)) =
          ground (arith, decide_transition_lem repo view laws t.id t.to s) in
        rw d (h, tt)
    | inr (x, found) ↦ elim (transition-cases x.state t.to) [
      | inl granted ↦
          let d : decide_transition repo t.id t.to s ≡ (s, ok t.to) =
            ground (arith, decide_transition_lem repo view laws t.id t.to s) in
          rw d (h, Reach-transition x.state t.to t.to (h t.id x found) granted)
      | inr refused ↦
          let d : decide_transition repo t.id t.to s ≡ (s, err (invalid_transition x.state)) =
            ground (arith, decide_transition_lem repo view laws t.id t.to s) in
          rw d (h, tt)
    ]
  ]
  advance-Reachable (decided st) t s at h ok_ = (update-Reachable t.id st s h ok_, tt)
  advance-Reachable (answered r) t s at h ok_ = (h, rw at tt)

  fresh :
      (ts : List (Thread F))
      → All (λ (t : Thread F). t.phase ≡ asked) ts
      → All (λ (t : Thread F). Lawful t.phase) ts
  fresh [] h = tt
  fresh (t ∷ ts) (e, h) = (rw e tt, fresh ts h)

  -- Over a repository that keeps the trait's promises, and however many requests run at once and
  -- in whatever order they take their steps, if every session is stored in a state that the
  -- canonical machine reaches from `initialized`, this stays so, and no session is in `idle`.
  pub interleave_all-Reachable :
      (turns : List ℕ) (ts : List (Thread F)) (s : S) (j : Uuid) (x : Session F)
      → ((k : Uuid) (y : Session F) → view s k ≡ some y → initialized ⟶* y.state)
      → All (λ (t : Thread F). t.phase ≡ asked) ts
      → view (interleave_all repo turns ts s).0 j ≡ some x
      → (initialized ⟶* x.state) × (x.state ≢ idle)
  interleave_all-Reachable turns ts s j x h new held =
      let reach =
        (interleave-kept (step repo) Reachable (λ (t : Thread F). Lawful t.phase)
            (λ t s' ok_ h'. advance-Reachable t.phase t s' refl h' ok_) turns ts s (fresh ts new)
            h).0
          j x held in
      (reach, Reach-ne-idle reach)
