-- ===== src/Api/Errors.antt =====
-- The error codes of internal/api/handlers/errors.go, their HTTP statuses, and the response to an error
-- that a handler returns.
use blackgrid.Prelude.{ℕ, String, if◌then◌else◌, ◌==◌, Option, none, some}

pub data ErrCode : Type 0 where
  validation unauthorized forbidden not_found conflict rate_limited internal service_unavailable :
      ErrCode

-- The switch of Error.
unfoldable pub status_of : ErrCode → ℕ
status_of validation = 400
status_of unauthorized = 401
status_of forbidden = 403
status_of not_found = 404
status_of conflict = 409
status_of rate_limited = 429
status_of internal = 500
status_of service_unavailable = 503

unfoldable pub status_to_code : ℕ → ErrCode
status_to_code status =
    if status == 400
    then validation
    else if status == 401
    then unauthorized
    else if status == 403
    then forbidden
    else if status == 404
    then not_found
    else if status == 409
    then conflict
    else if status == 429
    then rate_limited
    else if status == 503
    then service_unavailable
    else internal

-- echo.HTTPError, whose message may be no text.
pub record HttpError : Type 0 where
  pub code : ℕ
  pub message : Option String

pub record ErrorResponse : Type 0 where
  pub status : ℕ
  pub code : ErrCode
  pub message : String

-- CustomHTTPErrorHandler: `none` is an error of another type. `status_text` is http.StatusText.
unfoldable pub custom_http_error_handler : (ℕ → String) → Option HttpError → ErrorResponse
unfolding status_to_code
custom_http_error_handler status_text none = record {
  status = 500;
  code = status_to_code 500;
  message = "internal error";
}
custom_http_error_handler status_text (some e) = record {
  status = e.code;
  code = status_to_code e.code;
  message =
      if e.code == 500
      then "internal error"
      else (elim e.message [ none ↦ status_text e.code | some m ↦ m ]);
}
