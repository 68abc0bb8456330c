-- ===== src/Server/Ledger/Replies.antt =====
-- The handlers of cli/src/server.rs answer what the ledger allows.
use mathlib.Mathlib.Data.Multiset.Defs.{of_list}
use pokemon_rs.Prelude.{
  ◌^◌, ◌<◌, ◌≡◌, refl, inl, inr, some, arith, Option-cases, length, Text, ok, err, Result-cases,
  nat_eq,
}
use pokemon_rs.Prelude.Map.{get}
use pokemon_rs.StateEngine.Graph.{transition-cases}
use pokemon_rs.Float.{F64}
use pokemon_rs.Json.{Json, Serialize, DateTime, IsChronological}
use pokemon_rs.Api.{Uuid, PlayActionRequest, WalletOperationRequest}
use pokemon_rs.Domain.{not_found}
use pokemon_rs.Persistence.{
  operate, session_create, session_get_by_id, wallet_create, apply_operation,
}
use pokemon_rs.Manager
use pokemon_rs.Events
use pokemon_rs.Events.Order
use pokemon_rs.Fingerprinter.{fingerprint_get}
use pokemon_rs.Rl.Store
use pokemon_rs.Rl.Store.{InMemoryStore, in_memory_store}
use pokemon_rs.Rl.Store.Listing.{list_by_session-Sorted}
use pokemon_rs.Rl.Export.{ExportParams}
use pokemon_rs.Rl.Export.Pages.{export_experiences_page}
use pokemon_rs.Auth.{Role, user, admin, parse_bearer_token, validate_token}
use pokemon_rs.AppState.{AppState}
use pokemon_rs.Server.{
  RlExportQuery, next_state, record_play, create_session_handler, get_session_handler,
  session_events_handler, create_wallet_handler, wallet_operation_handler, game_fingerprint_handler,
  rl_export_handler,
}
use pokemon_rs.Server.Http.{map_response}
use pokemon_rs.Auth.Bearer.{parse_bearer_token_iff}
use pokemon_rs.Auth.Tokens.{validate_token_iff}
use pokemon_rs.Server.Middleware.{metrics_handler, metrics_for}
use pokemon_rs.Server.Router.{
  Payload, snapshot, Route, create_session, get_session, play_action, session_events, create_wallet,
  wallet_operation, game_fingerprint, rl_export, get_metrics, Request, dispatch,
}
use pokemon_rs.Server.Play.{handler_missing, handler_refused, handler_granted}
use pokemon_rs.Server.Guards.{Authenticated}
use pokemon_rs.Server.Ledger.{ledger}
use pokemon_rs.Server.Ledger.Outcomes.{
  played_on, operated_on, ListsEvents, Exports, Answered, counters_for,
}

-- No session has more experiences than 32 bits count.
abbrev pub IsSmall : {F J T : Type 0} ⦃d : DateTime T⦄ → InMemoryStore F J T → Type 0
IsSmall m = (id : Uuid) → length (Store.list_by_session id m) < 2 ^ 32

module _ {F J T : Type 0} ⦃f : F64 F⦄ ⦃j : Json J⦄ ⦃w : Serialize F J⦄ ⦃d : DateTime T⦄
    (show : Uuid → Text) (q : Request F T) (s : AppState F J T (InMemoryStore F J T)) where
  play_action_reply :
      (id : Uuid) (req : PlayActionRequest F)
      → (dispatch show q (play_action id req) s).1 ≡ played_on show id req (get id s.session_repo)
  unfolding record_play
  play_action_reply id req =
      let to = next_state req.action.action_type in
      elim (Option-cases (get id s.session_repo)) [
        | inl missing ↦ rw (handler_missing q.draw id req s missing, missing) refl
        | inr (x, found) ↦ elim (transition-cases x.state to) [
          | inl granted ↦
              rw (handler_granted q.draw id req s x found granted, found, granted, played_on) refl
          | inr refused ↦
              rw (handler_refused q.draw id req s x found refused, found, refused, played_on) refl
        ]
      ]

  wallet_operation_reply :
      (id : Uuid) (req : WalletOperationRequest F)
      → (dispatch show q (wallet_operation id req) s).1
        ≡ operated_on show id req (get id s.wallet_repo)
  unfolding wallet_operation_handler apply_operation
  wallet_operation_reply id req = elim (Option-cases (get id s.wallet_repo)) [
    | inl missing ↦
        let r : (wallet_operation_handler id req s).1 ≡ err (not_found id) = ground arith in
        rw (r, missing) refl
    | inr (x, found) ↦ elim (Result-cases (operate req.operation req.amount x)) [
      | inl (x', done) ↦
          let r : (wallet_operation_handler id req s).1 ≡ ok (record { wallet = x' }) =
            ground arith in
          rw (r, found, done, operated_on) refl
      | inr (e, stopped) ↦
          let r : (wallet_operation_handler id req s).1 ≡ err e = ground arith in
          rw (r, found, stopped, operated_on) refl
    ]
  ]

  events_reply :
      (id : Uuid)
      → ListsEvents show id
          (get id s.session_repo)
          (of_list (Events.list_by_session id s.event_store))
          (dispatch show q (session_events id) s).1
  unfolding session_events_handler Manager.get_session session_get_by_id
  events_reply id = elim (Option-cases (get id s.session_repo)) [
    | inl missing ↦ rw (missing, ListsEvents) refl
    | inr (x, found) ↦
        let sorted = Order.list_by_session-Sorted id s.event_store in
        rw (found, ListsEvents) (Events.list_by_session id s.event_store, refl, sorted, refl)
  ]

  export_reply :
      (laws : IsChronological T) (query : RlExportQuery)
      → length (Store.list_by_session query.session_id s.rl_store) < 2 ^ 32
      → Exports show query
          (of_list (Store.list_by_session query.session_id s.rl_store))
          (dispatch show q (rl_export query) s).1
  unfolding rl_export_handler
  export_reply laws query small =
      let xs = Store.list_by_session query.session_id s.rl_store in
      let p : ExportParams = record {
        session_id = query.session_id;
        limit = query.limit;
        offset = query.offset;
      } in
      let e =
        (export_experiences_page in_memory_store p s.rl_store s.rl_store (ok xs) refl).0 xs refl
          small in
      (xs, refl, (list_by_session-Sorted laws query.session_id s.rl_store).0, rw e refl)

  metrics_reply :
      (role : Role)
      → Authenticated q.auth s.api_keys role
      → (dispatch show q get_metrics s).1 ≡ counters_for role s.metrics
  unfolding metrics_handler
  metrics_reply role (h, t, same, token, carries, accepted) =
      let parsed : parse_bearer_token q.auth ≡ some t =
        rw same ((parse_bearer_token_iff h t).1 (token, carries)) in
      let valid : validate_token t s.api_keys ≡ ok role =
        (validate_token_iff t s.api_keys role).1 accepted in
      rw (parsed, valid, metrics_handler) (of_role role)
    where
      of_role :
          (r : Role)
          → some (map_response {B = Payload F J T} snapshot (metrics_for s (ok r)))
            ≡ counters_for r s.metrics
      of_role user = refl
      of_role admin = refl

  pub dispatch-Answered :
      (laws : IsChronological T) (role : Role) (route : Route F)
      → IsSmall s.rl_store
      → Authenticated q.auth s.api_keys role
      → Answered show q role route (ledger s) (dispatch show q route s).1
  unfolding create_session_handler get_session_handler create_wallet_handler
      game_fingerprint_handler Manager.create_session Manager.get_session session_create
      session_get_by_id wallet_create
  dispatch-Answered laws role (create_session req) small who = refl
  dispatch-Answered laws role (get_session id) small who =
      elim (Option-cases (get id s.session_repo)) [
        | inl missing ↦ rw missing refl
        | inr (x, found) ↦ rw found refl
      ]
  dispatch-Answered laws role (play_action id req) small who = play_action_reply id req
  dispatch-Answered laws role (session_events id) small who = events_reply id
  dispatch-Answered laws role (create_wallet req) small who = refl
  dispatch-Answered laws role (wallet_operation id req) small who = wallet_operation_reply id req
  dispatch-Answered laws role (game_fingerprint id) small who =
      elim (Option-cases (fingerprint_get id s.fingerprint_store)) [
        | inl missing ↦ rw (missing, game_fingerprint_handler) refl
        | inr (x, found) ↦ rw (found, game_fingerprint_handler) refl
      ]
  dispatch-Answered laws role (rl_export query) small who =
      export_reply laws query (small query.session_id)
  dispatch-Answered laws role get_metrics small who = metrics_reply role who
