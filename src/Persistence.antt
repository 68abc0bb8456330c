-- ===== src/Persistence.antt =====
-- controller/src/persistence_metrics/mod.rs: the in-memory session and wallet stores. A method runs
-- under the store's mutex, so it is a function of the map that the mutex guards; no code panics
-- under the lock, so that the lock is never poisoned and the mapped lock errors do not occur.
pub mod Sessions
pub mod Wallets
use pokemon_rs.Prelude.{Option, none, some, if◌then◌else◌, Result, ok, err, Method, nat_eq}
use pokemon_rs.Prelude.Map.{HashMap, get, insert}
use pokemon_rs.StateEngine.{GameState}
use pokemon_rs.Float.{F64, nought}
use pokemon_rs.Api.{Uuid, Session, Wallet, WalletOperationType, debit, credit, Money, aud}
use pokemon_rs.Domain.{
  DomainError, not_found, wallet_limit_exceeded, SessionRepository, WalletRepository,
}

abbrev pub SessionStore : Type 0 → Type 0
SessionStore F = HashMap Uuid (Session F)

abbrev pub WalletStore : Type 0 → Type 0
WalletStore F = HashMap Uuid (Wallet F)

module _ {F : Type 0} where
  unfoldable pub session_create : Session F → Method (SessionStore F) DomainError (Unit {0})
  session_create x m = (insert x.session_id x m, ok tt)

  unfoldable pub session_get_by_id : Uuid → Method (SessionStore F) DomainError (Option (Session F))
  session_get_by_id id m = (m, ok (get id m))

  unfoldable pub session_update_state :
      Uuid → GameState → Method (SessionStore F) DomainError (Session F)
  session_update_state id st m = elim (get id m) [
    | none ↦ (m, err (not_found id))
    | some x ↦ let x' = record x { state = st } in (insert id x' m, ok x')
  ]

  -- The inherent helpers, which do not fail.
  unfoldable pub upsert : Session F → SessionStore F → SessionStore F
  upsert x m = insert x.session_id x m

  unfoldable pub get_session : Uuid → SessionStore F → Option (Session F)
  get_session id m = get id m

  unfoldable pub seed : Wallet F → WalletStore F → WalletStore F
  seed w m = insert w.wallet_id w m

  abbrev pub session_store : SessionRepository F (SessionStore F)
  session_store = record {
    create = session_create;
    get_by_id = session_get_by_id;
    update_state = session_update_state;
  }

  unfoldable pub wallet_get_by_id : Uuid → Method (WalletStore F) DomainError (Option (Wallet F))
  wallet_get_by_id id m = (m, ok (get id m))

  unfoldable pub wallet_create : Wallet F → Method (WalletStore F) DomainError (Unit {0})
  wallet_create w m = (insert w.wallet_id w m, ok tt)

  abbrev with_amount : Money F → F → Money F
  with_amount m x = record m { amount = x }

module _ {F : Type 0} ⦃f : F64 F⦄ where
  -- The `match operation` on the wallet that the map holds: the new wallet, or an error.
  unfoldable pub operate : WalletOperationType → Money F → Wallet F → Result DomainError (Wallet F)
  operate debit amount w =
      if f.lt w.balance.amount amount.amount
      then err wallet_limit_exceeded
      else if f.lt w.daily_limit.amount (f.add w.daily_spent.amount amount.amount)
      then err wallet_limit_exceeded
      else ok (record w {
        balance = with_amount w.balance (f.sub w.balance.amount amount.amount);
        daily_spent = with_amount w.daily_spent (f.add w.daily_spent.amount amount.amount);
      })
  operate credit amount w =
      ok (record w { balance = with_amount w.balance (f.add w.balance.amount amount.amount) })

  unfoldable pub apply_operation :
      Uuid → WalletOperationType → Money F → Method (WalletStore F) DomainError (Wallet F)
  apply_operation id operation amount m = elim (get id m) [
    | none ↦ (m, err (not_found id))
    | some w ↦ elim (operate operation amount w) [
      | ok w' ↦ (insert id w' m, ok w')
      | err e ↦ (m, err e)
    ]
  ]

  abbrev pub wallet_store : WalletRepository F (WalletStore F)
  wallet_store = record {
    get_by_id = wallet_get_by_id;
    apply_operation = apply_operation;
    create = wallet_create;
  }

  -- `test_wallet`
  unfoldable pub test_wallet : Uuid → F → Wallet F
  test_wallet id balance = record {
    wallet_id = id;
    balance = record { amount = balance; currency = aud };
    daily_limit = record { amount = f.decimal 1000 0; currency = aud };
    daily_spent = record { amount = nought; currency = aud };
  }
