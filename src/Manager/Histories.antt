-- ===== src/Manager/Histories.antt =====
-- What any sequence of calls of the session manager (controller/src/game_session_manager/mod.rs)
-- leaves true of the stored sessions.
use mathlib.Core.Path.{subst}
use mathlib.Core.Option.{some-injective}
use native.Mathlib.Nat.{le_trans, le_refl}
use pokemon_rs.Prelude.{
  ◌≤◌, ◌≡◌, refl, sym, ap, ◌∙◌, ◌≢◌, inl, inr, Option, some, List, [], ◌∷◌, Bool-cases, ◌==◌,
  nat_eq,
}
use pokemon_rs.Float.{F64}
use pokemon_rs.StateEngine.{GameState, initialized, idle}
use pokemon_rs.StateEngine.Graph.{
  transition-stage_le, stage, ◌⟶*◌, here, Reach-transition, Reach-ne-idle,
}
use pokemon_rs.Api.{Uuid, SessionId, Session, CreateSessionRequest}
use pokemon_rs.Domain.{SessionRepository}
use pokemon_rs.Domain.Laws.{IsSessionRepository}
use pokemon_rs.Manager.{create_session, transition_session}
use pokemon_rs.Manager.Laws.{transition_session-cases, view-create_session}

-- A call that changes the store; the identifier of a creation is the one drawn for it.
pub data Call (F : Type 0) : Type 0 where
  create : Uuid → CreateSessionRequest F → Call F
  change : SessionId → GameState → Call F

module _ {F S : Type 0} ⦃f : F64 F⦄ (repo : SessionRepository F S) where
  abbrev pub perform : Call F → S → S
  perform (create id req) s = (create_session repo id req s).0
  perform (change id to) s = (transition_session repo id to s).0

  abbrev pub performs : List (Call F) → S → S
  performs [] s = s
  performs (c ∷ cs) s = performs cs (perform c s)

module _ {F S : Type 0} ⦃f : F64 F⦄ (repo : SessionRepository F S)
    (view : S → Uuid → Option (Session F)) (laws : IsSessionRepository repo view) where
  abbrev pub Reachable : S → Type 0
  Reachable s = (j : Uuid) (x : Session F) → view s j ≡ some x → initialized ⟶* x.state

  perform-Reachable : (c : Call F) (s : S) → Reachable s → Reachable (perform repo c s)
  perform-Reachable (create id req) s h j x e =
      let e' = rw (view-create_session repo view laws id j req s) at e in
      elim (Bool-cases (id == j)) [
        | inl same ↦
            let new = some-injective _ _ (rw same at e') in
            subst (λ (y : Session F). initialized ⟶* y.state) new here
        | inr other ↦ h j x (rw other at e')
      ]
  perform-Reachable (change id to) s h j x e =
      elim (transition_session-cases repo view laws id j to s) [
        | inl same ↦ h j x (sym same ∙ e)
        | inr (y, found, granted, moved) ↦
            let new = some-injective _ _ (sym moved ∙ e) in
            subst (λ (z : Session F). initialized ⟶* z.state) new
              (Reach-transition y.state to to (h j y found) granted)
      ]

  -- Whatever sessions are created and whatever transitions are requested, in any order, every
  -- stored session is in a state that the canonical machine reaches from `initialized`, and so
  -- never in `idle`, if that held of the store at the start.
  pub performs-Reachable :
      (cs : List (Call F)) (s : S)
      → Reachable s
      → (j : Uuid) (x : Session F) → view (performs repo cs s) j ≡ some x
      → (initialized ⟶* x.state) × (x.state ≢ idle)
  performs-Reachable [] s h j x e = (h j x e, Reach-ne-idle (h j x e))
  performs-Reachable (c ∷ cs) s h j x e =
      performs-Reachable cs (perform repo c s) (perform-Reachable c s h) j x e

  -- The requested transitions of a list of changes, to any sessions.
  abbrev pub changes : List (SessionId × GameState) → S → S
  changes [] s = s
  changes ((id, to) ∷ rest) s = changes rest (transition_session repo id to s).0

  -- Over a repository that keeps the trait's promises, no list of transition requests, run one
  -- after the other, removes a session, changes its game or its metrics, or takes it back to an
  -- earlier stage; so a completed session stays completed.
  pub changes_progress :
      (cs : List (SessionId × GameState)) (s : S) (j : Uuid) (x : Session F)
      → view s j ≡ some x
      → (y : Session F) × (view (changes cs s) j ≡ some y)
        × (y.session_id ≡ x.session_id)
        × (y.game_id ≡ x.game_id)
        × (y.metrics ≡ x.metrics)
        × (stage x.state ≤ stage y.state)
  changes_progress [] s j x h = (x, h, refl, refl, refl, le_refl _)
  changes_progress ((id, to) ∷ cs) s j x h =
      elim (transition_session-cases repo view laws id j to s) [
        | inl same ↦ changes_progress cs (transition_session repo id to s).0 j x (same ∙ h)
        | inr (z, found, granted, moved) ↦
            let e : z ≡ x = some-injective _ _ (sym found ∙ h) in
            let (y, at_j, i, g, m, up) =
              changes_progress cs (transition_session repo id to s).0 j (record z { state = to })
                moved in
            (
              y,
              at_j,
              i ∙ ap (λ (w : Session F). w.session_id) e,
              g ∙ ap (λ (w : Session F). w.game_id) e,
              m ∙ ap (λ (w : Session F). w.metrics) e,
              le_trans
                  (subst (λ (w : Session F). stage w.state ≤ stage to) e
                    (transition-stage_le z.state to to granted))
                  up,
            )
      ]
