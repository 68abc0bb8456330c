-- ===== src/Api.antt =====
-- controller/src/api.rs: request and response types, and the error body. A `Uuid` is its 128-bit
-- value, so `SessionId` and `GameId` are numbers; texts are lists of code points.
use pokemon_rs.Prelude.{ℕ, Option, List, Text, codes}
use pokemon_rs.StateEngine.{GameState}

abbrev pub Uuid : Type 0
Uuid = ℕ

-- `Uuid::nil()`
abbrev pub nil_uuid : Uuid
nil_uuid = 0

abbrev pub SessionId : Type 0
SessionId = Uuid

abbrev pub GameId : Type 0
GameId = Uuid

pub data Currency : Type 0 where
  aud usd eur : Currency

pub record Money (F : Type 0) : Type 0 where
  pub amount : F
  pub currency : Currency

pub record Wallet (F : Type 0) : Type 0 where
  pub wallet_id : SessionId
  pub balance : Money F
  pub daily_limit : Money F
  pub daily_spent : Money F

pub record SessionMetrics (F : Type 0) : Type 0 where
  pub total_spins : ℕ
  pub total_payout : F

pub record Session (F : Type 0) : Type 0 where
  pub session_id : SessionId
  pub game_id : GameId
  pub state : GameState
  pub metrics : SessionMetrics F

pub record PlayerProfile (F : Type 0) : Type 0 where
  pub behavior_type : Text
  pub max_bet : Option (Money F)

pub record CreateSessionRequest (F : Type 0) : Type 0 where
  pub game_id : GameId
  pub player_profile : PlayerProfile F

pub record CreateSessionResponse : Type 0 where
  pub session_id : SessionId
  pub state : GameState

pub data GameplayActionType : Type 0 where
  place_bet spin cash_out : GameplayActionType

pub record GameplayAction (F : Type 0) : Type 0 where
  pub action_type : GameplayActionType
  pub amount : Option (Money F)

pub record GameplayResult (F : Type 0) : Type 0 where
  pub payout : Option (Money F)
  pub symbols : List Text

pub record PlayActionRequest (F : Type 0) : Type 0 where
  pub action : GameplayAction F
  pub human_likeness : Option F

pub record PlayActionResponse (F : Type 0) : Type 0 where
  pub session : Session F
  pub result : GameplayResult F

pub data WalletOperationType : Type 0 where
  debit credit : WalletOperationType

pub record WalletOperationRequest (F : Type 0) : Type 0 where
  pub operation : WalletOperationType
  pub amount : Money F

pub record WalletOperationResponse (F : Type 0) : Type 0 where
  pub wallet : Wallet F

pub record CreateWalletRequest (F : Type 0) : Type 0 where
  pub wallet_id : Option SessionId
  pub balance : Money F
  pub daily_limit : Money F

pub record SessionEventRecord (F J T : Type 0) : Type 0 where
  pub event_id : Uuid
  pub session_id : Uuid
  pub action : J
  pub result : J
  pub timestamp : Option T
  pub reward : Option F

pub record SessionEventsResponse (F J T : Type 0) : Type 0 where
  pub events : List (SessionEventRecord F J T)

pub record GameFingerprintResponse (J : Type 0) : Type 0 where
  pub game_id : Uuid
  pub rng_signature : Text
  pub symbol_map : J
  pub statistical_profile : J

pub data ErrorCode : Type 0 where
  invalid_input not_found state_error wallet_limit_exceeded rate_limit internal_error unauthorized :
      ErrorCode

-- `impl Display for ErrorCode`
unfoldable pub code_text : ErrorCode → Text
code_text invalid_input = codes "INVALID_INPUT"
code_text not_found = codes "NOT_FOUND"
code_text state_error = codes "STATE_ERROR"
code_text wallet_limit_exceeded = codes "WALLET_LIMIT_EXCEEDED"
code_text rate_limit = codes "RATE_LIMIT"
code_text internal_error = codes "INTERNAL_ERROR"
code_text unauthorized = codes "UNAUTHORIZED"

-- `ErrorResponse` with its `ErrorDetail`; `details` is always `None`.
pub record ErrorResponse : Type 0 where
  pub code : Text
  pub message : Text

-- `ErrorResponse::from_code`, to which the named constructors delegate.
unfoldable pub from_code : ErrorCode → Text → ErrorResponse
from_code c message = record { code = code_text c; message = message }

pub record HealthResponse : Type 0 where
  pub status : Text

unfoldable pub healthy : HealthResponse
healthy = record { status = codes "healthy" }
