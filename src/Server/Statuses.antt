-- ===== src/Server/Statuses.antt =====
-- The status of every answer of the protected routes of cli/src/server.rs, with cli/src/error.rs.
use pokemon_rs.Prelude.{ℕ, Option, none, some, Result, ok, err, nat_eq}
use pokemon_rs.Prelude.Map.{get}
use pokemon_rs.Float.{F64}
use pokemon_rs.Json.{Json}
use pokemon_rs.Api.{WalletOperationRequest, Wallet}
use pokemon_rs.Persistence.{operate}
use pokemon_rs.Manager
use pokemon_rs.Fingerprinter.{fingerprint_get}
use pokemon_rs.Rl.Store.{ExperienceStore}
use pokemon_rs.Auth.{Role}
use pokemon_rs.AppState.{AppState}
use pokemon_rs.Server.{next_state}
use pokemon_rs.Server.Router.{
  Route, create_session, get_session, play_action, session_events, create_wallet, wallet_operation,
  game_fingerprint, rl_export, get_metrics,
}
use pokemon_rs.Server.Guards.{metrics_status}
use pokemon_rs.Server.Accounts.{play_status}

-- 200 if the object is there, and else 404.
abbrev pub lookup_status : {A : Type 0} → Option A → ℕ
lookup_status none = 404
lookup_status (some _) = 200

-- 404 without the wallet, 402 if the operation is refused, and else 200.
abbrev pub operation_status :
    {F : Type 0} ⦃f : F64 F⦄ → WalletOperationRequest F → Option (Wallet F) → ℕ
operation_status req none = 404
operation_status req (some w) = elim (operate req.operation req.amount w) [
  | ok _ ↦ 200
  | err _ ↦ 402
]

abbrev pub listing_status : {E A : Type 0} → Result E A → ℕ
listing_status (ok _) = 200
listing_status (err _) = 500

module _ {F J T S : Type 0} ⦃f : F64 F⦄ ⦃r : ExperienceStore F J T S⦄ where
  -- The status that the route's answer should have.
  abbrev pub route_status : AppState F J T S → Role → Route F → ℕ
  route_status s role (create_session req) = 201
  route_status s role (get_session id) = lookup_status (get id s.session_repo)
  route_status s role (play_action id req) =
      play_status (next_state req.action.action_type) (get id s.session_repo)
  route_status s role (session_events id) = lookup_status (get id s.session_repo)
  route_status s role (create_wallet req) = 201
  route_status s role (wallet_operation id req) = operation_status req (get id s.wallet_repo)
  route_status s role (game_fingerprint id) = lookup_status (fingerprint_get id s.fingerprint_store)
  route_status s role (rl_export q) = listing_status (r.list_by_session q.session_id s.rl_store).1
  route_status s role get_metrics = metrics_status role
