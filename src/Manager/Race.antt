-- ===== src/Manager/Race.antt =====
-- Concurrent requests to `transition_session` (controller/src/game_session_manager/mod.rs): the
-- store's lock is taken for the read and again for the write, so that other requests may run in
-- between. A request is a thread of two atomic steps.
use pokemon_rs.Prelude.{
  ◌≡◌, inl, inr, Bool, true, false, Option, some, List, [], ◌∷◌, arith, Result, ok, err,
  Result-cases, nat_eq,
}
use pokemon_rs.StateEngine.{GameState, transition, playing, evaluating, completed}
use pokemon_rs.Api.{Uuid, SessionId, Session}
use pokemon_rs.Domain.{DomainError, SessionRepository}
use pokemon_rs.Domain.Laws.{IsSessionRepository}
use pokemon_rs.Manager.{decide_transition, transition_session}
use pokemon_rs.Manager.Laws.{decide_transition_lem}

-- Where a request stands: before its read, between its read and its write, or answered.
pub data Phase (F : Type 0) : Type 0 where
  asked : Phase F
  decided : GameState → Phase F
  answered : Result DomainError (Session F) → Phase F

pub record Thread (F : Type 0) : Type 0 where
  pub id : SessionId
  pub to : GameState
  pub phase : Phase F

module _ {F S : Type 0} (repo : SessionRepository F S) where
  abbrev after_read : Thread F → S × Result DomainError GameState → S × Thread F
  after_read t (s, ok st) = (s, record t { phase = decided st })
  after_read t (s, err e) = (s, record t { phase = answered (err e) })

  -- One atomic step of a request.
  unfoldable pub advance : Phase F → Thread F → S → S × Thread F
  advance asked t s = after_read t (decide_transition repo t.id t.to s)
  advance (decided st) t s =
      let (s', r) = repo.update_state t.id st s in (s', record t { phase = answered r })
  advance (answered r) t s = (s, t)

  abbrev pub step : Thread F → S → S × Thread F
  step t s = advance t.phase t s

  -- Two requests, under a schedule that says whose turn it is: `true` is the first one's.
  abbrev pub interleave : List Bool → Thread F → Thread F → S → S × Thread F × Thread F
  interleave [] a b s = (s, a, b)
  interleave (true ∷ turns) a b s = let (s', a') = step a s in interleave turns a' b s'
  interleave (false ∷ turns) a b s = let (s', b') = step b s in interleave turns a b' s'

  -- A request that runs its steps with no other in between is `transition_session`: the same store
  -- and the same answer.
  pub advance_twice :
      (id : SessionId) (to : GameState) (s : S)
      → let (s', t) = step (record { id = id; to = to; phase = asked }) s in
        let (s'', t') = step t s' in
        let (s_done, r) = transition_session repo id to s in
        (s'' ≡ s_done) × (t'.phase ≡ answered r)
  unfolding advance transition_session
  advance_twice id to s = elim (Result-cases (decide_transition repo id to s).1) [
    | inl (st, granted) ↦ ground arith
    | inr (e, refused) ↦ ground arith
  ]

-- Over a repository that keeps the trait's promises, two requests for one session that is being
-- evaluated, one to complete it and one to bet again, can both be granted: if both read before
-- either writes, the first is answered "completed", and the store ends with the session back in
-- `playing`.
pub completed_session_reopened :
    {F S : Type 0} (repo : SessionRepository F S) (view : S → Uuid → Option (Session F))
    → IsSessionRepository repo view
    → (id : SessionId) (s : S) (x : Session F) → view s id ≡ some x
    → x.state ≡ evaluating
    → let (s', a, b) =
        interleave repo
          (true ∷ false ∷ true ∷ false ∷ [])
          (record { id = id; to = completed; phase = asked })
          (record { id = id; to = playing; phase = asked })
          s in
      (a.phase ≡ answered (ok (record x { state = completed })))
      × (b.phase ≡ answered (ok (record x { state = playing })))
      × (view s' id ≡ some (record x { state = playing }))
unfolding advance transition
completed_session_reopened repo view laws id s x found at =
    let written = (repo.update_state id completed s).0 in
    let there : view written id ≡ some (record x { state = completed }) =
      ground (arith, laws.view-update id completed s x id found) in
    ground (
      arith,
      decide_transition_lem repo view laws id completed s,
      decide_transition_lem repo view laws id playing s,
      laws.update_found id completed s x found,
      laws.update_found id playing written (record x { state = completed }) there,
      laws.view-update id playing written (record x { state = completed }) id there,
    )
