-- ===== src/Server/Tasks/Termination.antt =====
-- Concurrent requests to the service (cli/src/server.rs) come to an end: none waits for another.
use pokemon_rs.Prelude.{
  ℕ, suc, ◌≤◌, ◌<◌, ◌≡◌, refl, ap, ◌∙◌, none, some, List, [], ◌∷◌, map, arith, length, All, Text,
  nat_eq,
}
use pokemon_rs.Prelude.Schedule.{
  map-All_always, interleave-kept, turns_of, interleave-map, interleave-done,
}
use pokemon_rs.Float.{F64}
use pokemon_rs.Json.{Json, Serialize, DateTime}
use pokemon_rs.Api.{Uuid}
use pokemon_rs.Rl.Store.{ExperienceStore}
use pokemon_rs.AppState.{AppState}
use pokemon_rs.Server.Http.{Response}
use pokemon_rs.Server.Race.{called, looked, decided, moved, counted}
use pokemon_rs.Server.Router.{Request, Payload}
use pokemon_rs.Server.Tasks.Steps.{steps_left, advance_task-steps_left}
use pokemon_rs.Server.Tasks.Answers.{Unbroken, advance_task-Unbroken}
use pokemon_rs.Server.Tasks.{
  Progress, acting, responded, Task, step_task, interleave_tasks, incoming,
}

-- The request is answered.
abbrev pub IsResponded : {F J T : Type 0} → Task F J T → Type 0
IsResponded {F} {J} {T} t = (a : Response (Payload F J T)) × (t.progress ≡ responded (some a))

IsResponded-steps_left :
    {F J T : Type 0} (t : Task F J T) (p : Progress F J T)
    → t.progress ≡ p
    → Unbroken p
    → steps_left p ≡ 0
    → IsResponded t
IsResponded-steps_left t (responded none) e u h = absurd (u refl)
IsResponded-steps_left t (responded (some a)) e u h = (a, e)
IsResponded-steps_left t (acting id req called) e u h = absurd (omega (arith, h))
IsResponded-steps_left t (acting id req (looked prev)) e u h = absurd (omega (arith, h))
IsResponded-steps_left t (acting id req (decided prev to)) e u h = absurd (omega (arith, h))
IsResponded-steps_left t (acting id req (moved prev x)) e u h = absurd (omega (arith, h))
IsResponded-steps_left t (acting id req (counted prev x)) e u h = absurd (omega (arith, h))
IsResponded-steps_left t (acting id req _) e u h = absurd (omega (arith, h))
IsResponded-steps_left t _ e u h = absurd (omega (arith, h))

all-IsResponded :
    {F J T : Type 0} (ts : List (Task F J T))
    → All (λ t. Unbroken t.progress) ts
    → All (λ t. steps_left t.progress ≡ 0) ts
    → All IsResponded ts
all-IsResponded [] us hs = tt
all-IsResponded (t ∷ ts) (u, us) (h, hs) =
    (IsResponded-steps_left t t.progress refl u h, all-IsResponded ts us hs)

map-incoming :
    {F T : Type 0} (J : Type 0) (qs : List (Request F T))
    → map (λ (t : Task F J T). t.request) (map incoming qs) ≡ qs
map-incoming J [] = refl
map-incoming J (q ∷ qs) = ap (λ rs. q ∷ rs) (map-incoming J qs)

length-incoming :
    {F T : Type 0} (J : Type 0) (qs : List (Request F T))
    → length (map (λ q. incoming {F = F} {J = J} {T = T} q) qs) ≡ length qs
length-incoming J [] = refl
length-incoming J (q ∷ qs) = ap (λ n. suc n) (length-incoming J qs)

module _ {F J T S : Type 0} ⦃f : F64 F⦄ ⦃j : Json J⦄ ⦃w : Serialize F J⦄ ⦃d : DateTime T⦄
    ⦃r : ExperienceStore F J T S⦄ (show : Uuid → Text) where
  -- Any number of concurrent requests all get an answer, each its own, once a schedule, in any
  -- order, has given each of them eight turns.
  pub interleave_tasks-IsResponded :
      (turns : List ℕ) (qs : List (Request F T)) (s : AppState F J T S)
      → ((n : ℕ) → n < length qs → 8 ≤ turns_of n turns)
      → let ts = (interleave_tasks show turns (map incoming qs) s).1 in
        All IsResponded ts × (map (λ (t : Task F J T). t.request) ts ≡ qs)
  interleave_tasks-IsResponded turns qs s fair =
      let ts = (interleave_tasks show turns (map incoming qs) s).1 in
      let left = λ (t : Task F J T). steps_left t.progress in
      let whole =
        (interleave-kept (step_task show) (λ (s' : AppState F J T S). Unit)
          (λ t. Unbroken t.progress)
          (λ t s' g i. (tt, advance_task-Unbroken show t.progress t.request s' g)) turns
          (map incoming qs) s (map-All_always incoming (λ t. Unbroken t.progress) (λ q. tt) qs)
          tt).1 in
      let done =
        interleave-done (step_task show) left
          (λ t s'. advance_task-steps_left show t.progress t.request s') 8 turns (map incoming qs) s
          (map-All_always incoming (λ t. left t ≤ 8) (λ q. omega arith) qs)
          (λ n h. fair n (omega (arith, h, length-incoming J qs))) in
      (
        all-IsResponded ts whole done,
        interleave-map (step_task show) (λ t. t.request) (λ t s'. refl) turns (map incoming qs) s
            ∙ map-incoming J qs,
      )
