-- ===== src/Server/Spending.antt =====
-- What every sequence of requests to the service (cli/src/server.rs) leaves true of its wallets.
use mathlib.Core.Path.{subst}
use pokemon_rs.Prelude.{
  ◌≡◌, sym, inl, inr, false, Option, some, List, [], ◌∷◌, arith, Bool-cases, All, All-map, Text,
  ◌==◌, ok, nat_eq,
}
use pokemon_rs.Prelude.Map.{get, insert, get-insert}
use pokemon_rs.Float.{F64, IsIeee, nought}
use pokemon_rs.Json.{Json, Serialize, DateTime}
use pokemon_rs.Api.{Uuid, Wallet, CreateWalletRequest, credit}
use pokemon_rs.Domain.{AppConfig}
use pokemon_rs.Persistence.{WalletStore, apply_operation, operate, wallet_create}
use pokemon_rs.Persistence.Wallets.{
  Every, Every-apply_operation, WithinLimit, NotOverdrawn, operate-WithinLimit,
  operate-NotOverdrawn,
}
use pokemon_rs.Manager
use pokemon_rs.RateLimit.{check}
use pokemon_rs.Rl.Store.{ExperienceStore}
use pokemon_rs.AppState.{AppState, with_config}
use pokemon_rs.Server.{
  unwrap_or, create_session_handler, get_session_handler, record_play, session_events_handler,
  create_wallet_handler, wallet_operation_handler, game_fingerprint_handler, rl_export_handler,
}
use pokemon_rs.Server.Play.{handler-cases, handler_granted}
use pokemon_rs.Server.Router.{
  Route, create_session, get_session, play_action, session_events, create_wallet, wallet_operation,
  game_fingerprint, rl_export, get_metrics, Request, dispatch, app,
}
use pokemon_rs.Server.Guards.{key_of, app-cases, app-Authenticated}
use pokemon_rs.Server.Answers.{serves}

module _ {F : Type 0} ⦃f : F64 F⦄ where
  -- The wallet that a creation stores.
  abbrev pub new_wallet : Uuid → CreateWalletRequest F → Wallet F
  new_wallet fresh req = record {
    wallet_id = unwrap_or fresh req.wallet_id;
    balance = req.balance;
    daily_limit = req.daily_limit;
    daily_spent = record { amount = nought; currency = req.balance.currency };
  }

  -- What a route must do for a property to hold of every wallet: create only wallets that have it,
  -- and ask only for operations that keep it.
  abbrev pub Preserves : (Wallet F → Type 0) → Uuid → Route F → Type 0
  Preserves P fresh (create_wallet req) = P (new_wallet fresh req)
  Preserves P fresh (wallet_operation id req) =
      (w w' : Wallet F) → P w → operate req.operation req.amount w ≡ ok w' → P w'
  Preserves P fresh _ = Unit

  Every-insert :
      (P : Wallet F → Type 0) (w : Wallet F) (m : WalletStore F)
      → P w
      → Every P m
      → Every P (insert w.wallet_id w m)
  Every-insert P w m new h j v found = elim (Bool-cases (w.wallet_id == j)) [
    | inl same ↦ let e : w ≡ v = ground (arith, get-insert w.wallet_id j w m) in subst P e new
    | inr other ↦ h j v (ground (arith, get-insert w.wallet_id j w m))
  ]

  pub kept : (P : Wallet F → Type 0) {m n : WalletStore F} → m ≡ n → Every P n → Every P m
  kept P e h = subst (Every P) (sym e) h

module _ {F J T S : Type 0} ⦃f : F64 F⦄ ⦃j : Json J⦄ ⦃w : Serialize F J⦄ ⦃d : DateTime T⦄
    ⦃r : ExperienceStore F J T S⦄ (show : Uuid → Text) (P : Wallet F → Type 0) where
  abbrev Kept : AppState F J T S → Type 0
  Kept s = Every P s.wallet_repo

  pub dispatch-Every :
      (q : Request F T) (route : Route F) (s : AppState F J T S)
      → Preserves P q.fresh route
      → Kept s
      → Kept (dispatch show q route s).0
  unfolding create_session_handler Manager.create_session get_session_handler Manager.get_session
      session_events_handler create_wallet_handler wallet_create wallet_operation_handler
      game_fingerprint_handler rl_export_handler record_play
  dispatch-Every q (create_session req) s ok_ h = kept P (ground arith) h
  dispatch-Every q (get_session id) s ok_ h = kept P (ground arith) h
  dispatch-Every q (play_action id req) s ok_ h = elim (handler-cases q.draw id req s) [
    | inl (e, same, why) ↦ rw same h
    | inr (x, found, granted) ↦ rw (handler_granted q.draw id req s x found granted) h
  ]
  dispatch-Every q (session_events id) s ok_ h = kept P (ground arith) h
  dispatch-Every q (create_wallet req) s ok_ h =
      Every-insert P (new_wallet q.fresh req) s.wallet_repo ok_ h
  dispatch-Every q (wallet_operation id req) s ok_ h =
      let applied = apply_operation id req.operation req.amount s.wallet_repo in
      let same : (wallet_operation_handler id req s).0.wallet_repo ≡ applied.0 = ground arith in
      kept P same (Every-apply_operation P id req.operation req.amount s.wallet_repo ok_ h)
  dispatch-Every q (game_fingerprint id) s ok_ h = kept P (ground arith) h
  dispatch-Every q (rl_export params) s ok_ h = kept P (ground arith) h
  dispatch-Every q get_metrics s ok_ h = h

  app-Every :
      (q : Request F T) (s : AppState F J T S)
      → Preserves P q.fresh q.route
      → Kept s
      → Kept (app show q s).0
  app-Every q s ok_ h = elim (app-cases show q s) [
    | inl (role, who) ↦
        let (limiter, allowed) = check (key_of q.auth) q.now s.rate_limiter in
        let s' : AppState F J T S = record s { rate_limiter = limiter } in
        let (served, refused) = app-Authenticated show q s role who in
        elim (Bool-cases allowed) [
          | inl yes_ ↦ rw (served yes_) (dispatch-Every q q.route s' ok_ h)
          | inr no_ ↦ rw (refused no_).0 h
        ]
    | inr refused ↦ rw refused h
  ]

  serves-Every :
      (qs : List (Request F T)) (s : AppState F J T S)
      → All (λ (q : Request F T). Preserves P q.fresh q.route) qs
      → Kept s
      → Kept (serves show qs s)
  serves-Every [] s oks h = h
  serves-Every (q ∷ qs) s (ok_, oks) h = serves-Every qs (app show q s).0 oks (app-Every q s ok_ h)

-- A creation has a limit that is not negative.
abbrev pub LimitNonneg : {F : Type 0} ⦃f : F64 F⦄ → Route F → Type 0
LimitNonneg ⦃f⦄ (create_wallet req) = f.lt req.daily_limit.amount nought ≡ false
LimitNonneg _ = Unit

-- A creation has a balance that is not negative, and a credit an amount that is not.
abbrev pub FundsNonneg : {F : Type 0} ⦃f : F64 F⦄ → Route F → Type 0
FundsNonneg ⦃f⦄ (create_wallet req) = f.lt req.balance.amount nought ≡ false
FundsNonneg ⦃f⦄ (wallet_operation id req) =
    req.operation ≡ credit → f.lt req.amount.amount nought ≡ false
FundsNonneg _ = Unit

module _ {F : Type 0} ⦃f : F64 F⦄ where
  pub limits :
      (fresh : Uuid) (route : Route F) → LimitNonneg route → Preserves WithinLimit fresh route
  limits fresh (create_wallet req) h = h
  limits fresh (wallet_operation id req) h =
      λ w w'. operate-WithinLimit req.operation req.amount w w'
  limits fresh _ h = tt

  pub funds :
      (laws : IsIeee F) (fresh : Uuid) (route : Route F)
      → FundsNonneg route
      → Preserves NotOverdrawn fresh route
  funds laws fresh (create_wallet req) h = h
  funds laws fresh (wallet_operation id req) h =
      λ w w'. operate-NotOverdrawn laws req.operation req.amount w w' h
  funds laws fresh _ h = tt

module _ {F T S : Type 0} ⦃f : F64 F⦄ ⦃d : DateTime T⦄ where
  -- Whatever requests a newly started service, over any store of experiences, is sent, with or
  -- without valid tokens, if every creation of a wallet names a daily limit that is not negative,
  -- then no wallet's daily spending ever exceeds its limit.
  pub serves-WithinLimit :
      (J : Type 0) ⦃j : Json J⦄ ⦃w : Serialize F J⦄ ⦃r : ExperienceStore F J T S⦄
      (show : Uuid → Text) (replay : S) (keys : Option Text) (config : AppConfig F)
      (qs : List (Request F T)) (k : Uuid) (x : Wallet F)
      → All (λ (q : Request F T). LimitNonneg q.route) qs
      → get k (serves show qs (with_config {J = J} replay keys config)).wallet_repo ≡ some x
      → WithinLimit x
  unfolding with_config get
  serves-WithinLimit J show replay keys config qs k x oks found =
      serves-Every show WithinLimit qs (with_config {J = J} replay keys config)
        (All-map (λ (q : Request F T). LimitNonneg q.route)
          (λ (q : Request F T). Preserves WithinLimit q.fresh q.route) qs
          (λ q. limits q.fresh q.route) oks)
        (λ i y h. cc) k x found

  -- Under the laws of IEEE 754: whatever requests a newly started service, over any store of
  -- experiences, is sent, if every creation of a wallet has a balance and every credit an amount
  -- that is not negative, then no wallet's balance ever becomes negative, whatever the debits are.
  pub serves-NotOverdrawn :
      (laws : IsIeee F) (J : Type 0) ⦃j : Json J⦄ ⦃w : Serialize F J⦄ ⦃r : ExperienceStore F J T S⦄
      (show : Uuid → Text) (replay : S) (keys : Option Text) (config : AppConfig F)
      (qs : List (Request F T)) (k : Uuid) (x : Wallet F)
      → All (λ (q : Request F T). FundsNonneg q.route) qs
      → get k (serves show qs (with_config {J = J} replay keys config)).wallet_repo ≡ some x
      → NotOverdrawn x
  unfolding with_config get
  serves-NotOverdrawn laws J show replay keys config qs k x oks found =
      serves-Every show NotOverdrawn qs (with_config {J = J} replay keys config)
        (All-map (λ (q : Request F T). FundsNonneg q.route)
          (λ (q : Request F T). Preserves NotOverdrawn q.fresh q.route) qs
          (λ q. funds laws q.fresh q.route) oks)
        (λ i y h. cc) k x found
