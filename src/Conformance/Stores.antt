-- ===== src/Conformance/Stores.antt =====
-- The tests of controller/src/game_session_manager/mod.rs and persistence_metrics/mod.rs.
use pokemon_rs.Prelude.{◌≡◌, refl, Bool, true, false, ◌&&◌, none, [], Text, codes, nat_eq, text_eq}
use pokemon_rs.Prelude.Map.{get, insert}
use pokemon_rs.Prelude.Int.{◌+ℤ◌, ◌-ℤ◌}
use pokemon_rs.Float.Fixed.{Fixed, fixed_f64}
use pokemon_rs.StateEngine.{initialized, playing, completed, transition, state_beq}
use pokemon_rs.Api.{Uuid, Session, Money, aud, CreateSessionRequest, debit, credit}
use pokemon_rs.Domain.{DomainError, not_found, wallet_limit_exceeded}
use pokemon_rs.Persistence.{
  SessionStore, WalletStore, session_store, session_create, session_get_by_id, session_update_state,
  seed, apply_operation, operate, test_wallet,
}
use pokemon_rs.Manager.{
  default_metrics, create_session, get_session, transition_session, decide_transition,
}
use pokemon_rs.Conformance.{literal, near, is_err, is_ok, ok_and, err_and, some_and}

abbrev no_sessions : SessionStore Fixed
no_sessions = []

abbrev player : Text → CreateSessionRequest Fixed
player behavior_type = record {
  game_id = 2;
  player_profile = record { behavior_type = behavior_type; max_bet = none };
}

abbrev create_session_returns_initialized : Bool
create_session_returns_initialized =
    let (mgr, res) = create_session session_store 1 (player (codes "conservative")) no_sessions in
    ok_and res λ created.
      state_beq created.state initialized
      && ok_and (get_session session_store created.session_id mgr).1
          (λ found. some_and found (λ session. state_beq session.state initialized))

abbrev transition_session_valid : Bool
transition_session_valid =
    let (mgr, res) = create_session session_store 1 (player (codes "aggressive")) no_sessions in
    ok_and res λ created.
      ok_and (transition_session session_store created.session_id playing mgr).1
        (λ updated. state_beq updated.state playing)

abbrev transition_session_invalid_returns_error : Bool
transition_session_invalid_returns_error =
    let (mgr, res) = create_session session_store 1 (player (codes "mixed")) no_sessions in
    ok_and res
      λ created. is_err (transition_session session_store created.session_id completed mgr).1

manager_pass :
    (create_session_returns_initialized ≡ true)
    × (transition_session_valid ≡ true)
    × (transition_session_invalid_returns_error ≡ true)
unfolding create_session get_session transition_session decide_transition transition session_create
    session_get_by_id session_update_state get insert
manager_pass = (refl, refl, refl)

abbrev make_session : Uuid → Session Fixed
make_session id = record {
  session_id = id;
  game_id = 2;
  state = initialized;
  metrics = default_metrics;
}

abbrev create_and_get_session : Bool
create_and_get_session =
    let (store, res) = session_create (make_session 1) no_sessions in
    is_ok res
    && ok_and (session_get_by_id 1 store).1
        (λ got. some_and got (λ session. state_beq session.state initialized))

abbrev update_state_changes_session_state : Bool
update_state_changes_session_state =
    let (store, res) = session_create (make_session 1) no_sessions in
    is_ok res
    && ok_and (session_update_state 1 playing store).1 (λ updated. state_beq updated.state playing)

abbrev is_not_found : DomainError → Bool
is_not_found (not_found _) = true
is_not_found _ = false

abbrev update_state_unknown_id_returns_not_found : Bool
update_state_unknown_id_returns_not_found =
    err_and (session_update_state 1 playing no_sessions).1 is_not_found

session_store_pass :
    (create_and_get_session ≡ true)
    × (update_state_changes_session_state ≡ true)
    × (update_state_unknown_id_returns_not_found ≡ true)
unfolding session_create session_get_by_id session_update_state get insert
session_store_pass = (refl, refl, refl)

abbrev no_wallets : WalletStore Fixed
no_wallets = []

abbrev aud_of : Fixed → Money Fixed
aud_of amount = record { amount = amount; currency = aud }

abbrev debit_reduces_balance : Bool
debit_reduces_balance =
    let store = seed (test_wallet 1 (literal 100 0)) no_wallets in
    ok_and (apply_operation 1 debit (aud_of (literal 10 0)) store).1
      (λ wallet. near wallet.balance.amount (literal 90 0))

abbrev is_wallet_limit_exceeded : DomainError → Bool
is_wallet_limit_exceeded wallet_limit_exceeded = true
is_wallet_limit_exceeded _ = false

abbrev debit_exceeding_balance_returns_wallet_limit_exceeded : Bool
debit_exceeding_balance_returns_wallet_limit_exceeded =
    let store = seed (test_wallet 1 (literal 5 0)) no_wallets in
    err_and (apply_operation 1 debit (aud_of (literal 10 0)) store).1 is_wallet_limit_exceeded

abbrev credit_increases_balance : Bool
credit_increases_balance =
    let store = seed (test_wallet 1 (literal 50 0)) no_wallets in
    ok_and (apply_operation 1 credit (aud_of (literal 25 0)) store).1
      (λ wallet. near wallet.balance.amount (literal 75 0))

wallet_store_pass :
    (debit_reduces_balance ≡ true)
    × (debit_exceeding_balance_returns_wallet_limit_exceeded ≡ true)
    × (credit_increases_balance ≡ true)
unfolding seed test_wallet apply_operation operate get insert ◌+ℤ◌ ◌-ℤ◌
wallet_store_pass = (refl, refl, refl)
