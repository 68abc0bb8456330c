-- ===== src/Domain.antt =====
-- controller/src/app_state.rs: the domain error, the configuration and the repository traits.
pub mod Laws
use pokemon_rs.Prelude.{ℕ, Option, Text, Method}
use pokemon_rs.StateEngine.{GameState}
use pokemon_rs.Float.{F64}
use pokemon_rs.Api.{Uuid, Session, Wallet, WalletOperationType, Money}

pub data DomainError : Type 0 where
  not_found : Uuid → DomainError
  invalid_transition : GameState → DomainError
  wallet_limit_exceeded : DomainError
  invalid_input : Text → DomainError
  internal : Text → DomainError
  rate_limit_exceeded : DomainError

pub record AppConfig (F : Type 0) : Type 0 where
  pub cost_per_spin : F
  pub human_likeness_weight : F
  pub rate_limit_rpm : ℕ

-- `AppConfig::default`
unfoldable pub default_config : {F : Type 0} ⦃f : F64 F⦄ → AppConfig F
default_config ⦃f⦄ = record {
  cost_per_spin = f.decimal 1 2;
  human_likeness_weight = f.decimal 3 1;
  rate_limit_rpm = 100;
}

-- `trait SessionRepository`, over the state `S` behind the shared reference.
pub record SessionRepository (F S : Type 0) : Type 0 where
  pub create : Session F → Method S DomainError (Unit {0})
  pub get_by_id : Uuid → Method S DomainError (Option (Session F))
  pub update_state : Uuid → GameState → Method S DomainError (Session F)

-- `trait WalletRepository`
pub record WalletRepository (F S : Type 0) : Type 0 where
  pub get_by_id : Uuid → Method S DomainError (Option (Wallet F))
  pub apply_operation : Uuid → WalletOperationType → Money F → Method S DomainError (Wallet F)
  pub create : Wallet F → Method S DomainError (Unit {0})
