-- ===== src/Common/Error.antt =====
-- expose-common/src/error.rs: the error type of the workspace, with the HTTP status, the protocol
-- code and the retry flag of each variant. An error of another library (`io::Error`,
-- `tungstenite::Error`, `hyper::Error`, `bincode::Error`, `toml::de::Error`) is the text that it
-- displays.
use expose.Prelude.{ℕ, ◌≤◌, ◌<◌, ◌≡◌, Bool, true, false, Option, Result, arith}
use expose.Prelude.Text.{Text}

pub data ErrorCode : Type 0 where
  authentication_failed : ErrorCode
  subdomain_unavailable : ErrorCode
  rate_limit_exceeded : ErrorCode
  protocol_mismatch : ErrorCode
  internal_error : ErrorCode

-- `#[repr(u16)]`.
unfoldable pub code_number : ErrorCode → ℕ
code_number ErrorCode.authentication_failed = 1001
code_number ErrorCode.subdomain_unavailable = 1002
code_number ErrorCode.rate_limit_exceeded = 1003
code_number ErrorCode.protocol_mismatch = 1004
code_number ErrorCode.internal_error = 1099

pub data EncodingError : Type 0 where
  bincode : Text → EncodingError
  utf8 : Text → EncodingError
  message_too_large : ℕ → EncodingError

pub data ConfigError : Type 0 where
  file_read : Text → ConfigError
  parse : Text → ConfigError
  validation : Text → ConfigError
  missing_field : Text → ConfigError

pub data ExposeError : Type 0 where
  encoding : EncodingError → ExposeError
  version_mismatch : (client_version server_version : ℕ) → ExposeError
  invalid_message : (context : Text) → ExposeError
  authentication : (reason : Text) → ExposeError
  admin_authorization : ExposeError
  subdomain_taken : (subdomain : Text) → ExposeError
  invalid_subdomain : (subdomain reason : Text) → ExposeError
  tunnel_not_found : (identifier : Text) → ExposeError
  tunnel_disconnected : (reason : Option Text) → ExposeError
  rate_limited : (retry_after_secs : ℕ) → ExposeError
  capacity_exceeded : (resource : Text) → ExposeError
  payload_too_large : (size limit : ℕ) → ExposeError
  network : Text → ExposeError
  web_socket : Text → ExposeError
  http : Text → ExposeError
  timeout : (operation : Text) → (timeout_secs : ℕ) → ExposeError
  connection_refused : (address : Text) → ExposeError
  config : ConfigError → ExposeError
  internal : Text → ExposeError

-- Fallible operations of the workspace.
abbrev pub Fallible : Type 0 → Type 0
Fallible A = Result ExposeError A

unfoldable pub http_status : ExposeError → ℕ
http_status (ExposeError.authentication _) = 401
http_status ExposeError.admin_authorization = 403
http_status (ExposeError.subdomain_taken _) = 409
http_status (ExposeError.invalid_subdomain _ _) = 400
http_status (ExposeError.tunnel_not_found _) = 404
http_status (ExposeError.rate_limited _) = 429
http_status (ExposeError.capacity_exceeded _) = 503
http_status (ExposeError.payload_too_large _ _) = 413
http_status (ExposeError.timeout _ _) = 504
http_status (ExposeError.connection_refused _) = 502
http_status (ExposeError.version_mismatch _ _) = 400
http_status (ExposeError.config _) = 500
http_status (ExposeError.internal _) = 500
http_status _ = 500

unfoldable pub error_code : ExposeError → ErrorCode
error_code (ExposeError.authentication _) = ErrorCode.authentication_failed
error_code ExposeError.admin_authorization = ErrorCode.authentication_failed
error_code (ExposeError.subdomain_taken _) = ErrorCode.subdomain_unavailable
error_code (ExposeError.invalid_subdomain _ _) = ErrorCode.subdomain_unavailable
error_code (ExposeError.rate_limited _) = ErrorCode.rate_limit_exceeded
error_code (ExposeError.version_mismatch _ _) = ErrorCode.protocol_mismatch
error_code _ = ErrorCode.internal_error

unfoldable pub is_retriable : ExposeError → Bool
is_retriable (ExposeError.network _) = true
is_retriable (ExposeError.web_socket _) = true
is_retriable (ExposeError.timeout _ _) = true
is_retriable (ExposeError.tunnel_disconnected _) = true
is_retriable _ = false

-- An error that a caller may retry has a status of the 5xx class and the internal code: a
-- rejection of the request itself (a 4xx status, or another code) is never retried.
pub is_retriable-http_status :
    (e : ExposeError)
    → is_retriable e ≡ true
    → (500 ≤ http_status e) × (http_status e < 600) × (error_code e ≡ ErrorCode.internal_error)
unfolding is_retriable http_status error_code
is_retriable-http_status (ExposeError.network m) h = ground arith
is_retriable-http_status e h = ground arith
