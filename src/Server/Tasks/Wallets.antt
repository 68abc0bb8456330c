-- ===== src/Server/Tasks/Wallets.antt =====
-- The wallets under concurrent requests to the service (cli/src/server.rs).
use pokemon_rs.Prelude.{ℕ, ◌≡◌, refl, Option, some, List, map, arith, All, All-map, Text, nat_eq}
use pokemon_rs.Prelude.Map.{get}
use pokemon_rs.Prelude.Schedule.{map-All, interleave-kept}
use pokemon_rs.Float.{F64, IsIeee}
use pokemon_rs.Json.{Json, Serialize, DateTime}
use pokemon_rs.Api.{Uuid, Wallet}
use pokemon_rs.Domain.{AppConfig}
use pokemon_rs.Persistence.{session_get_by_id, session_update_state, session_create}
use pokemon_rs.Persistence.Wallets.{Every, WithinLimit, NotOverdrawn}
use pokemon_rs.Manager.{decide_transition}
use pokemon_rs.Manager
use pokemon_rs.Rl.Store.{ExperienceStore}
use pokemon_rs.AppState.{AppState, with_config}
use pokemon_rs.Server.Race.{
  Stage, called, looked, decided, moved, counted, logged, answered, Call, advance_call,
}
use pokemon_rs.Server.Router.{
  Route, create_session, get_session, play_action, session_events, create_wallet, wallet_operation,
  game_fingerprint, rl_export, get_metrics, Request,
}
use pokemon_rs.Server.Spending.{
  Preserves, kept, dispatch-Every, LimitNonneg, limits, FundsNonneg, funds,
}
use pokemon_rs.Server.Tasks.{
  Progress, arrived, authorised, admitted, limited, created, acting, listing, read_created,
  read_completed, responded, Task, call_of, begin, advance_task, step_task, interleave_tasks,
  incoming,
}

module _ {F J T S : Type 0} ⦃f : F64 F⦄ ⦃j : Json J⦄ ⦃w : Serialize F J⦄
    ⦃r : ExperienceStore F J T S⦄ where
  pub advance_call-wallet_repo :
      (st : Stage F) (c : Call F T) (s : AppState F J T S)
      → (advance_call st c s).0.wallet_repo ≡ s.wallet_repo
  unfolding advance_call Manager.get_session decide_transition session_get_by_id
      session_update_state
  advance_call-wallet_repo called c s = ground arith
  advance_call-wallet_repo (looked prev) c s = ground arith
  advance_call-wallet_repo (decided prev to) c s = ground arith
  advance_call-wallet_repo (moved prev x) c s = refl
  advance_call-wallet_repo (counted prev x) c s = refl
  advance_call-wallet_repo (logged prev x) c s = refl
  advance_call-wallet_repo (answered a) c s = refl

module _ {F J T S : Type 0} ⦃f : F64 F⦄ ⦃j : Json J⦄ ⦃w : Serialize F J⦄ ⦃d : DateTime T⦄
    ⦃r : ExperienceStore F J T S⦄ (show : Uuid → Text) (P : Wallet F → Type 0) where
  begin-Every :
      (q : Request F T) (route : Route F) (s : AppState F J T S)
      → Preserves P q.fresh route
      → Every P s.wallet_repo
      → Every P (begin show q route s).0.wallet_repo
  unfolding begin Manager.create_session session_create Manager.get_session session_get_by_id
  begin-Every q (create_session req) s ok_ h = kept P (ground arith) h
  begin-Every q (play_action id req) s ok_ h =
      kept P (advance_call-wallet_repo called (call_of q id req called) s) h
  begin-Every q (session_events id) s ok_ h = kept P (ground arith) h
  begin-Every q get_metrics s ok_ h = h
  begin-Every q (get_session id) s ok_ h = dispatch-Every show P q (get_session id) s ok_ h
  begin-Every q (create_wallet req) s ok_ h = dispatch-Every show P q (create_wallet req) s ok_ h
  begin-Every q (wallet_operation id req) s ok_ h =
      dispatch-Every show P q (wallet_operation id req) s ok_ h
  begin-Every q (game_fingerprint id) s ok_ h =
      dispatch-Every show P q (game_fingerprint id) s ok_ h
  begin-Every q (rl_export query) s ok_ h = dispatch-Every show P q (rl_export query) s ok_ h

  advance_task-Every :
      (p : Progress F J T) (q : Request F T) (s : AppState F J T S)
      → Preserves P q.fresh q.route
      → Every P s.wallet_repo
      → Every P (advance_task show p q s).0.wallet_repo
  unfolding advance_task
  advance_task-Every admitted q s ok_ h = begin-Every q q.route s ok_ h
  advance_task-Every (acting id req st) q s ok_ h =
      kept P (advance_call-wallet_repo st (call_of q id req st) s) h
  advance_task-Every arrived q s ok_ h = h
  advance_task-Every authorised q s ok_ h = h
  advance_task-Every limited q s ok_ h = h
  advance_task-Every (created resp) q s ok_ h = h
  advance_task-Every (listing id) q s ok_ h = h
  advance_task-Every (read_created n) q s ok_ h = h
  advance_task-Every (read_completed n m) q s ok_ h = h
  advance_task-Every (responded a) q s ok_ h = h

  interleave_tasks-Every :
      (turns : List ℕ) (qs : List (Request F T)) (s : AppState F J T S)
      → All (λ (q : Request F T). Preserves P q.fresh q.route) qs
      → Every P s.wallet_repo
      → Every P (interleave_tasks show turns (map incoming qs) s).0.wallet_repo
  interleave_tasks-Every turns qs s oks h =
      let G = λ (t : Task F J T). Preserves P t.request.fresh t.request.route in
      (interleave-kept (step_task show) (λ (s : AppState F J T S). Every P s.wallet_repo) G
        (λ t s g i. (advance_task-Every t.progress t.request s g i, g)) turns (map incoming qs) s
        (map-All incoming (λ (q : Request F T). Preserves P q.fresh q.route) G (λ q g. g) qs oks)
        h).0

module _ {F T S : Type 0} ⦃f : F64 F⦄ ⦃d : DateTime T⦄ where
  -- Whatever requests a newly started service, over any store of experiences, is sent at once, with
  -- or without valid tokens, and whatever the schedule of their atomic steps is: if every creation
  -- of a wallet names a daily limit that is not negative, then no wallet's daily spending ever
  -- exceeds its limit.
  pub interleave_tasks-WithinLimit :
      (J : Type 0) ⦃j : Json J⦄ ⦃w : Serialize F J⦄ ⦃r : ExperienceStore F J T S⦄
      (show : Uuid → Text) (replay : S) (keys : Option Text) (config : AppConfig F) (turns : List ℕ)
      (qs : List (Request F T)) (k : Uuid) (x : Wallet F)
      → All (λ (q : Request F T). LimitNonneg q.route) qs
      → let s = with_config {J = J} replay keys config in
        get k (interleave_tasks show turns (map incoming qs) s).0.wallet_repo ≡ some x
        → WithinLimit x
  unfolding with_config get
  interleave_tasks-WithinLimit J show replay keys config turns qs k x oks found =
      interleave_tasks-Every show WithinLimit turns qs (with_config {J = J} replay keys config)
        (All-map (λ (q : Request F T). LimitNonneg q.route)
          (λ (q : Request F T). Preserves WithinLimit q.fresh q.route) qs
          (λ q. limits q.fresh q.route) oks)
        (λ i y h. cc) k x found

  -- Under the laws of IEEE 754: whatever requests a newly started service, over any store of
  -- experiences, is sent at once, and whatever the schedule of their atomic steps is: if every
  -- creation of a wallet has a balance and every credit an amount that is not negative, then no
  -- wallet's balance ever becomes negative, whatever the debits are.
  pub interleave_tasks-NotOverdrawn :
      (laws : IsIeee F) (J : Type 0) ⦃j : Json J⦄ ⦃w : Serialize F J⦄ ⦃r : ExperienceStore F J T S⦄
      (show : Uuid → Text) (replay : S) (keys : Option Text) (config : AppConfig F) (turns : List ℕ)
      (qs : List (Request F T)) (k : Uuid) (x : Wallet F)
      → All (λ (q : Request F T). FundsNonneg q.route) qs
      → let s = with_config {J = J} replay keys config in
        get k (interleave_tasks show turns (map incoming qs) s).0.wallet_repo ≡ some x
        → NotOverdrawn x
  unfolding with_config get
  interleave_tasks-NotOverdrawn laws J show replay keys config turns qs k x oks found =
      interleave_tasks-Every show NotOverdrawn turns qs (with_config {J = J} replay keys config)
        (All-map (λ (q : Request F T). FundsNonneg q.route)
          (λ (q : Request F T). Preserves NotOverdrawn q.fresh q.route) qs
          (λ q. funds laws q.fresh q.route) oks)
        (λ i y h. cc) k x found
