-- ===== src/Server/Tasks/Atomicity.antt =====
-- The wallets of concurrent requests (cli/src/server.rs: `create_wallet_handler`,
-- `wallet_operation_handler`) and those of the same requests one after the other.
use mathlib.Core.List.{Perm, append_assoc}
use mathlib.Core.List.Perm
use mathlib.Core.Path.{subst}
use pokemon_rs.Prelude.{
  ℕ, zero, suc, ◌≡◌, refl, sym, ap, ◌∙◌, List, [], ◌∷◌, ◌++◌, map, Text, nat_eq,
}
use pokemon_rs.Prelude.Schedule.{step_at}
use pokemon_rs.Float.{F64}
use pokemon_rs.Json.{Json, Serialize, DateTime}
use pokemon_rs.Api.{Uuid}
use pokemon_rs.Rl.Store.{ExperienceStore}
use pokemon_rs.AppState.{AppState}
use pokemon_rs.Server.Router.{Request}
use pokemon_rs.Server.Tasks.{Task, step_task, interleave_tasks, incoming}
use pokemon_rs.Prelude.Perms.{perm_front}
use pokemon_rs.Server.Tasks.Unserved.{
  in_turn, in_turn-append, unserved, all_unserved, advance_task-unserved,
}

all_unserved-incoming :
    {F T : Type 0} (J : Type 0) (qs : List (Request F T))
    → all_unserved (map (λ q. incoming {F = F} {J = J} {T = T} q) qs) ≡ qs
all_unserved-incoming J [] = refl
all_unserved-incoming J (q ∷ qs) = ap (λ rs. q ∷ rs) (all_unserved-incoming J qs)

module _ {F J T S : Type 0} ⦃f : F64 F⦄ ⦃j : Json J⦄ ⦃w : Serialize F J⦄ ⦃d : DateTime T⦄
    ⦃r : ExperienceStore F J T S⦄ (show : Uuid → Text) where
  step_at-unserved :
      (n : ℕ) (ts : List (Task F J T)) (s : AppState F J T S)
      → let (s', ts') = step_at (step_task show) n ts s in
        (served : List (Request F T)) × Perm (all_unserved ts) (served ++ all_unserved ts')
        × (s'.wallet_repo ≡ in_turn served s.wallet_repo)
  step_at-unserved n [] s = ([], Perm.rfl, refl)
  step_at-unserved zero (t ∷ ts) s =
      let (served, e, same) = advance_task-unserved show t.progress t.request s in
      let t' = (step_task show t s).1 in
      let here = unserved t'.progress t'.request in
      let regroup : unserved t.progress t.request ++ all_unserved ts
          ≡ served ++ (here ++ all_unserved ts) =
        ap (λ qs. qs ++ all_unserved ts) e ∙ append_assoc served here (all_unserved ts) in
      (
        served,
        subst (Perm (unserved t.progress t.request ++ all_unserved ts)) regroup Perm.rfl,
        same,
      )
  step_at-unserved (suc n) (t ∷ ts) s =
      let (served, p, same) = step_at-unserved n ts s in
      let own = unserved t.progress t.request in
      let rest = all_unserved (step_at (step_task show) n ts s).1 in
      (served, Perm.trans (Perm.append_left own p) (perm_front own served rest), same)

  interleave_tasks-unserved :
      (turns : List ℕ) (ts : List (Task F J T)) (s : AppState F J T S)
      → let (s', ts') = interleave_tasks show turns ts s in
        (served : List (Request F T)) × Perm (all_unserved ts) (served ++ all_unserved ts')
        × (s'.wallet_repo ≡ in_turn served s.wallet_repo)
  interleave_tasks-unserved [] ts s = ([], Perm.rfl, refl)
  interleave_tasks-unserved (n ∷ turns) ts s =
      let (s1, ts1) = step_at (step_task show) n ts s in
      let (first, p, same) = step_at-unserved n ts s in
      let (later, p', same') = interleave_tasks-unserved turns ts1 s1 in
      let rest = all_unserved (interleave_tasks show turns ts1 s1).1 in
      (
        first ++ later,
        Perm.trans p (
            subst (Perm (first ++ all_unserved ts1)) (sym (append_assoc first later rest))
              (Perm.append_left first p')),
        same' ∙ ap (in_turn later) same ∙ sym (in_turn-append first later s.wallet_repo),
      )

  -- Concurrent requests act on the wallets as if one at a time: under any schedule of their atomic
  -- steps, the wallets are those that the served requests leave behind in some order, when each of
  -- them creates its wallet or applies its operation, once and as a whole, after the other. The
  -- served requests are all but those whose handler has not begun and those that are answered 401
  -- or told how long to wait.
  pub interleave_tasks-in_turn :
      (turns : List ℕ) (qs : List (Request F T)) (s : AppState F J T S)
      → let (s', ts') = interleave_tasks show turns (map incoming qs) s in
        (served : List (Request F T)) × Perm qs (served ++ all_unserved ts')
        × (s'.wallet_repo ≡ in_turn served s.wallet_repo)
  interleave_tasks-in_turn turns qs s =
      let (served, p, same) = interleave_tasks-unserved turns (map incoming qs) s in
      let rest = all_unserved (interleave_tasks show turns (map incoming qs) s).1 in
      (served, subst (λ l. Perm l (served ++ rest)) (all_unserved-incoming J qs) p, same)
