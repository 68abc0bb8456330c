-- ===== src/Server/Ledger/Outcomes.antt =====
-- What the routes of cli/src/server.rs should answer, from the ledger alone. A list that the
-- service answers is one that its bag allows: in the order of the times, which may leave a choice.
use mathlib.Mathlib.Data.Multiset.Defs.{Multiset, of_list}
use pokemon_rs.Prelude.{
  ℕ, ◌≡◌, Option, none, some, List, map, drop, take, Text, codes, Result, ok, err, nat_eq,
}
use pokemon_rs.Prelude.Sort.{Sorted}
use pokemon_rs.StateEngine.{GameState, StateError, initialized, transition}
use pokemon_rs.Float.{F64, nought}
use pokemon_rs.Json.{DateTime}
use pokemon_rs.Api.{
  Uuid, Session, Wallet, PlayActionRequest, WalletOperationRequest, from_code, ErrorCode,
}
use pokemon_rs.Fingerprinter.{GameFingerprint}
use pokemon_rs.Metrics.{SessionMetrics}
use pokemon_rs.Domain.{DomainError, not_found, invalid_transition}
use pokemon_rs.Persistence.{operate}
use pokemon_rs.Events
use pokemon_rs.Events.{GameplayEvent}
use pokemon_rs.Rl.Store
use pokemon_rs.Rl.Store.{Experience}
use pokemon_rs.Rl.Export.{page_limit, of_experience}
use pokemon_rs.Auth.{Role, user, admin}
use pokemon_rs.Server.{RlExportQuery, unwrap_or, next_state, simulate_result, event_record}
use pokemon_rs.Server.Http.{Response, respond, into_response}
use pokemon_rs.Server.Router.{
  Payload, session_created, session_found, action_played, events_found, wallet_created,
  wallet_operated, fingerprint_found, exported, snapshot, Route, create_session, get_session,
  play_action, session_events, create_wallet, wallet_operation, game_fingerprint, rl_export,
  get_metrics, Request,
}
use pokemon_rs.Server.Ledger.{Ledger}

abbrev pub Answer : Type 0 → Type 0 → Type 0 → Type 0
Answer F J T = Option (Response (Payload F J T))

module _ {F J T : Type 0} where
  abbrev pub found : ℕ → Payload F J T → Answer F J T
  found status p = some (respond status (ok p))

  abbrev pub refused : (Uuid → Text) → DomainError → Answer F J T
  refused show e = some (into_response show e)

  -- The counters are for administrators.
  abbrev pub counters_for : Role → SessionMetrics → Answer F J T
  counters_for admin m = found 200 (
      snapshot (record {
        sessions_created = m.sessions_created;
        sessions_completed = m.sessions_completed;
        sessions_playing = m.sessions_playing;
      }))
  counters_for user m =
      some (respond 403 (err (from_code ErrorCode.unauthorized (codes "Admin role required"))))

module _ {F J T : Type 0} ⦃f : F64 F⦄ (show : Uuid → Text) where
  abbrev pub session_or_refused : Uuid → Option (Session F) → Answer F J T
  session_or_refused id none = refused show (not_found id)
  session_or_refused id (some x) = found 200 (session_found x)

  abbrev pub played : PlayActionRequest F → Session F → Result StateError GameState → Answer F J T
  played req x (err _) = refused show (invalid_transition x.state)
  played req x (ok to) = found 200 (
      action_played
        (record { session = record x { state = to }; result = simulate_result req.action }))

  abbrev pub played_on : Uuid → PlayActionRequest F → Option (Session F) → Answer F J T
  played_on id req none = refused show (not_found id)
  played_on id req (some x) = played req x (transition x.state (next_state req.action.action_type))

  abbrev pub operated : Result DomainError (Wallet F) → Answer F J T
  operated (err e) = refused show e
  operated (ok w) = found 200 (wallet_operated (record { wallet = w }))

  abbrev pub operated_on : Uuid → WalletOperationRequest F → Option (Wallet F) → Answer F J T
  operated_on id req none = refused show (not_found id)
  operated_on id req (some w) = operated (operate req.operation req.amount w)

  abbrev pub fingerprint_or_refused : Uuid → Option (GameFingerprint J) → Answer F J T
  fingerprint_or_refused id none = refused show (not_found id)
  fingerprint_or_refused id (some fp) = found 200 (
      fingerprint_found (record {
        game_id = fp.game_id;
        rng_signature = fp.rng_signature;
        symbol_map = fp.symbol_map;
        statistical_profile = fp.statistical_profile;
      }))

  module _ ⦃d : DateTime T⦄ where
    -- The events of a session that there is.
    abbrev pub ListsEvents :
        Uuid → Option (Session F) → Multiset (GameplayEvent F J T) → Answer F J T → Type 0
    ListsEvents id none bag a = a ≡ refused show (not_found id)
    ListsEvents id (some _) bag a =
        (es : List (GameplayEvent F J T)) × (of_list es ≡ bag)
        × Sorted Events.greater es
        × (a ≡ found 200 (events_found (record { events = map event_record es })))

    abbrev pub Exports : RlExportQuery → Multiset (Experience F J T) → Answer F J T → Type 0
    Exports q bag a =
        (xs : List (Experience F J T)) × (of_list xs ≡ bag)
        × Sorted Store.greater xs
        × (a
            ≡ found 200 (
                exported (record {
                  experiences = take (page_limit q.limit) (drop q.offset (map of_experience xs));
                })))

    -- `a` is an answer to the route that the ledger allows.
    abbrev pub Answered : Request F T → Role → Route F → Ledger F J T → Answer F J T → Type 0
    Answered q role (create_session req) l a =
        a ≡ found 201 (session_created (record { session_id = q.fresh; state = initialized }))
    Answered q role (get_session id) l a = a ≡ session_or_refused id (l.sessions id)
    Answered q role (play_action id req) l a = a ≡ played_on id req (l.sessions id)
    Answered q role (session_events id) l a = ListsEvents id (l.sessions id) (l.events id) a
    Answered q role (create_wallet req) l a =
        a
        ≡ found 201 (
            wallet_created (record {
              wallet_id = unwrap_or q.fresh req.wallet_id;
              balance = req.balance;
              daily_limit = req.daily_limit;
              daily_spent = record { amount = nought; currency = req.balance.currency };
            }))
    Answered q role (wallet_operation id req) l a = a ≡ operated_on id req (l.wallets id)
    Answered q role (game_fingerprint id) l a = a ≡ fingerprint_or_refused id (l.fingerprints id)
    Answered q role (rl_export query) l a = Exports query (l.experiences query.session_id) a
    Answered q role get_metrics l a = a ≡ counters_for role l.counters
