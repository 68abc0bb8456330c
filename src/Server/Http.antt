-- ===== src/Server/Http.antt =====
-- cli/src/error.rs and the error bodies of controller/src/api.rs: responses. `Uuid`'s `Display` is
-- an argument.
use pokemon_rs.Prelude.{ℕ, Option, none, ◌++◌, Text, codes, Result, ok, err}
use pokemon_rs.Api.{
  Uuid, ErrorCode, ErrorResponse, from_code, state_error, rate_limit, internal_error,
}
use pokemon_rs.Domain.{DomainError}
use pokemon_rs.Server.{state_name}

pub record Response (A : Type 0) : Type 0 where
  pub status : ℕ
  pub retry_after : Option ℕ
  pub body : Result ErrorResponse A

abbrev pub respond : {A : Type 0} → ℕ → Result ErrorResponse A → Response A
respond status body = record { status = status; retry_after = none; body = body }

-- The derived `Display` of `DomainError`.
unfoldable pub to_string : (Uuid → Text) → DomainError → Text
to_string show (DomainError.not_found id) = codes "not found: " ++ show id
to_string show (DomainError.invalid_transition from) =
    codes "invalid state transition from " ++ state_name from
to_string show DomainError.wallet_limit_exceeded = codes "wallet limit exceeded"
to_string show (DomainError.invalid_input m) = codes "invalid input: " ++ m
to_string show (DomainError.internal m) = codes "internal: " ++ m
to_string show DomainError.rate_limit_exceeded = codes "rate limit exceeded"

abbrev pub status_code : DomainError → ℕ × ErrorCode
status_code (DomainError.not_found _) = (404, ErrorCode.not_found)
status_code (DomainError.invalid_transition _) = (409, state_error)
status_code DomainError.wallet_limit_exceeded = (402, ErrorCode.wallet_limit_exceeded)
status_code (DomainError.invalid_input _) = (400, ErrorCode.invalid_input)
status_code DomainError.rate_limit_exceeded = (429, rate_limit)
status_code (DomainError.internal _) = (500, internal_error)

-- `impl IntoResponse for HttpError`
unfoldable pub into_response : {A : Type 0} → (Uuid → Text) → DomainError → Response A
into_response show e =
    let (status, code) = status_code e in respond status (err (from_code code (to_string show e)))

-- What axum makes of a handler's `Result<(StatusCode, Json<A>), HttpError>`.
abbrev pub respond_with :
    {A B : Type 0} → (Uuid → Text) → ℕ → (A → B) → Result DomainError A → Response B
respond_with show status wrap (ok a) = respond status (ok (wrap a))
respond_with show status wrap (err e) = into_response show e

abbrev pub map_body : {A B : Type 0} → (A → B) → Result ErrorResponse A → Result ErrorResponse B
map_body f (ok a) = ok (f a)
map_body f (err e) = err e

-- The same response with its body in another type.
abbrev pub map_response : {A B : Type 0} → (A → B) → Response A → Response B
map_response f r = record {
  status = r.status;
  retry_after = r.retry_after;
  body = map_body f r.body;
}
