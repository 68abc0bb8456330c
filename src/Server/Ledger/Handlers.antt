-- ===== src/Server/Ledger/Handlers.antt =====
-- The handlers of cli/src/server.rs do to the service what the ledger says.
use pokemon_rs.Prelude.{
  ◌≡◌, refl, sym, ap, ◌∙◌, inl, inr, Option, none, some, arith, Option-cases, Text, Result,
  Result-cases, nat_eq,
}
use pokemon_rs.Prelude.Map.{get, insert, get-insert}
use pokemon_rs.StateEngine.{GameState, initialized}
use pokemon_rs.Metrics.{
  SessionMetrics, record_session_created, record_session_playing, record_session_completed,
}
use pokemon_rs.StateEngine.Graph.{transition-cases}
use pokemon_rs.Float.{F64, nought}
use pokemon_rs.Json.{Json, Serialize, IsSerde, DateTime}
use pokemon_rs.Api.{
  Uuid, Session, Wallet, CreateSessionRequest, CreateWalletRequest, PlayActionRequest,
  WalletOperationRequest,
}
use pokemon_rs.Domain.{DomainError}
use pokemon_rs.Persistence.{
  session_create, session_get_by_id, wallet_create, apply_operation, operate,
}
use pokemon_rs.Manager
use pokemon_rs.Manager.{default_metrics}
use pokemon_rs.Rl.Store
use pokemon_rs.Rl.Store.{InMemoryStore, in_memory_store}
use pokemon_rs.Rl.Export.{ExportResponse, export_experiences}
use pokemon_rs.AppState.{AppState}
use pokemon_rs.Server.{
  record_state, Draw, unwrap_or, next_state, play_event, play_experience, action_reward,
  record_play, create_session_handler, get_session_handler, play_action_handler,
  session_events_handler, create_wallet_handler, wallet_operation_handler, game_fingerprint_handler,
  rl_export_handler,
}
use pokemon_rs.Server.Play.{action_allowed, handler_granted, handler_missing, handler_refused}
use pokemon_rs.Server.Router.{
  exported_response, Route, create_session, get_session, play_action, session_events, create_wallet,
  wallet_operation, game_fingerprint, rl_export, get_metrics, Request, dispatch,
}
use pokemon_rs.Server.Ledger.Bags.{added_event, added_experience}
use pokemon_rs.Server.Ledger.{
  count_state, Ledger, ledger, create_session_spec, create_wallet_spec, settle, operate_on, play,
  play_if_ok, play_on, route_spec,
}

ledger_ext :
    {F J T : Type 0} (a b : Ledger F J T)
    → ((k : Uuid) → a.sessions k ≡ b.sessions k)
    → ((k : Uuid) → a.wallets k ≡ b.wallets k)
    → ((k : Uuid) → a.events k ≡ b.events k)
    → ((k : Uuid) → a.experiences k ≡ b.experiences k)
    → ((k : Uuid) → a.fingerprints k ≡ b.fingerprints k)
    → a.counters ≡ b.counters
    → a ≡ b
ledger_ext a b p q r t u v = λ i. record {
  sessions = λ k. p k i;
  wallets = λ k. q k i;
  events = λ k. r k i;
  experiences = λ k. t k i;
  fingerprints = λ k. u k i;
  counters = v i;
}

count_state_lem : (to : GameState) (m : SessionMetrics) → record_state to m ≡ count_state to m
unfolding record_session_playing record_session_completed
count_state_lem GameState.idle m = refl
count_state_lem initialized m = refl
count_state_lem GameState.probing m = refl
count_state_lem GameState.playing m = refl
count_state_lem GameState.evaluating m = refl
count_state_lem GameState.completed m = refl

module _ {F J T : Type 0} ⦃f : F64 F⦄ ⦃d : DateTime T⦄ where
  create_session-ledger :
      (id : Uuid) (req : CreateSessionRequest F) (s : AppState F J T (InMemoryStore F J T))
      → ledger (create_session_handler id req s).0 ≡ create_session_spec id req (ledger s)
  unfolding create_session_handler Manager.create_session session_create record_session_created
  create_session-ledger id req s =
      let x : Session F = record {
        session_id = id;
        game_id = req.game_id;
        state = initialized;
        metrics = default_metrics;
      } in
      ledger_ext _ _ (λ k. get-insert id k x s.session_repo) (λ k. refl) (λ k. refl) (λ k. refl)
        (λ k. refl) refl

  create_wallet-ledger :
      (fresh : Uuid) (req : CreateWalletRequest F) (s : AppState F J T (InMemoryStore F J T))
      → ledger (create_wallet_handler fresh req s).0 ≡ create_wallet_spec fresh req (ledger s)
  unfolding create_wallet_handler wallet_create
  create_wallet-ledger fresh req s =
      let x : Wallet F = record {
        wallet_id = unwrap_or fresh req.wallet_id;
        balance = req.balance;
        daily_limit = req.daily_limit;
        daily_spent = record { amount = nought; currency = req.balance.currency };
      } in
      ledger_ext _ _ (λ k. refl) (λ k. get-insert x.wallet_id k x s.wallet_repo) (λ k. refl)
        (λ k. refl) (λ k. refl) refl

  wallet_operation-ledger :
      (id : Uuid) (req : WalletOperationRequest F) (s : AppState F J T (InMemoryStore F J T))
      → ledger (wallet_operation_handler id req s).0
        ≡ operate_on id req (get id s.wallet_repo) (ledger s)
  unfolding wallet_operation_handler apply_operation
  wallet_operation-ledger id req s =
      let l : Ledger F J T = ledger s in
      elim (Option-cases (get id s.wallet_repo)) [
        | inl missing ↦
            let same : (wallet_operation_handler id req s).0 ≡ s = ground arith in
            ap ledger same ∙ sym (ap (λ o. operate_on id req o l) missing)
        | inr (x, found) ↦ elim (Result-cases (operate req.operation req.amount x)) [
          | inl (x', done) ↦
              let moved : (wallet_operation_handler id req s).0
                  ≡ record s { wallet_repo = insert id x' s.wallet_repo } =
                ground arith in
              ap ledger moved
              ∙ ledger_ext _ _ (λ k. refl) (λ k. get-insert id k x' s.wallet_repo) (λ k. refl)
                  (λ k. refl) (λ k. refl) refl
              ∙ sym (ap (λ o. operate_on id req o l) found ∙ ap (λ r. settle id r l) done)
          | inr (e, refused) ↦
              let same : (wallet_operation_handler id req s).0 ≡ s = ground arith in
              ap ledger same
              ∙ sym (ap (λ o. operate_on id req o l) found ∙ ap (λ r. settle id r l) refused)
        ]
      ]

module _ {F J T : Type 0} ⦃f : F64 F⦄ ⦃j : Json J⦄ ⦃w : Serialize F J⦄ ⦃d : DateTime T⦄
    (laws : IsSerde F J) where
  record_play-ledger :
      (draw : Draw T) (id : Uuid) (req : PlayActionRequest F)
      (s : AppState F J T (InMemoryStore F J T)) (x : Session F)
      → let to = next_state req.action.action_type in
        let x' : Session F = record x { state = to } in
        ledger (
          (record_play draw id req x.state x'
            (record s { session_repo = insert id x' s.session_repo })).0)
        ≡ play s.config draw id req x to (ledger s)
  unfolding record_play play_event play_experience Store.new
  record_play-ledger draw id req s x =
      let to = next_state req.action.action_type in
      let x' : Session F = record x { state = to } in
      let reward = action_reward s.config req in
      ledger_ext _ _ (λ k. get-insert id k x' s.session_repo) (λ k. refl)
        (added_event (play_event draw id req reward) s.event_store (action_allowed laws req.action))
        (added_experience (play_experience draw id req reward x.state to) s.rl_store) (λ k. refl)
        (count_state_lem to s.metrics)

  play_action-ledger :
      (draw : Draw T) (id : Uuid) (req : PlayActionRequest F)
      (s : AppState F J T (InMemoryStore F J T))
      → ledger (play_action_handler draw id req s).0
        ≡ play_on s.config draw id req (get id s.session_repo) (ledger s)
  play_action-ledger draw id req s =
      let l : Ledger F J T = ledger s in
      let to = next_state req.action.action_type in
      elim (Option-cases (get id s.session_repo)) [
        | inl missing ↦
            ap (λ (p : AppState F J T (InMemoryStore F J T) × _). ledger p.0)
              (handler_missing draw id req s missing)
            ∙ sym (ap (λ o. play_on s.config draw id req o l) missing)
        | inr (x, found) ↦
            let lookup = ap (λ o. play_on s.config draw id req o l) found in
            elim (transition-cases x.state to) [
              | inl granted ↦
                  ap (λ p. ledger p.0) (handler_granted draw id req s x found granted)
                  ∙ record_play-ledger draw id req s x
                  ∙ sym (lookup ∙ ap (λ r. play_if_ok s.config draw id req x r l) granted)
              | inr refused ↦
                  ap (λ p. ledger p.0) (handler_refused draw id req s x found refused)
                  ∙ sym (lookup ∙ ap (λ r. play_if_ok s.config draw id req x r l) refused)
            ]
      ]

exported_state :
    {F J T S : Type 0} (show : Uuid → Text) (s : AppState F J T S)
    (out : Option (Result DomainError (ExportResponse F J T)))
    → (exported_response show (s, out)).0 ≡ s
exported_state show s none = refl
exported_state show s (some r) = refl

module _ {F J T : Type 0} ⦃f : F64 F⦄ ⦃j : Json J⦄ ⦃w : Serialize F J⦄ ⦃d : DateTime T⦄
    (show : Uuid → Text) (laws : IsSerde F J) where
  pub dispatch-ledger :
      (q : Request F T) (route : Route F) (s : AppState F J T (InMemoryStore F J T))
      → ledger (dispatch show q route s).0 ≡ route_spec s.config q route (ledger s)
  unfolding get_session_handler Manager.get_session session_get_by_id session_events_handler
      game_fingerprint_handler rl_export_handler export_experiences
  dispatch-ledger q (create_session req) s = create_session-ledger q.fresh req s
  dispatch-ledger q (get_session id) s =
      let same : (get_session_handler id s).0 ≡ s = ground arith in ap ledger same
  dispatch-ledger q (play_action id req) s = play_action-ledger laws q.draw id req s
  dispatch-ledger q (session_events id) s =
      let same : (session_events_handler id s).0 ≡ s = ground arith in ap ledger same
  dispatch-ledger q (create_wallet req) s = create_wallet-ledger q.fresh req s
  dispatch-ledger q (wallet_operation id req) s = wallet_operation-ledger id req s
  dispatch-ledger q (game_fingerprint id) s =
      let same : (game_fingerprint_handler id s).0 ≡ s = ground arith in ap ledger same
  dispatch-ledger q (rl_export query) s =
      ap ledger (exported_state show s (rl_export_handler query s).1)
  dispatch-ledger q get_metrics s = refl
