-- ===== src/Common/Message.antt =====
-- expose-common/src/protocol.rs: the messages of the tunnel protocol and their size check, and
-- expose-common/src/utils.rs: `validate_body_size`. The field `data` of the source is `payload`.
use expose.Prelude.{
  ℕ, ◌*◌, ◌≤◌, ◌≡◌, ◌↔◌, Bool, List, Option, ok, err, arith, ltb, if◌then◌else◌, length,
}
use expose.Prelude.Text.{Text, Bytes}
use expose.Common.Types.{TunnelProtocol, RequestLimits}
use expose.Common.Error.{ErrorCode, ExposeError, Fallible}

pub record ConnectRequest : Type 0 where
  pub protocol_version : ℕ
  pub api_key : Option Text
  pub desired_subdomain : Option Text
  pub tunnel_protocol : TunnelProtocol
  pub client_version : Text
  pub metadata : Option Text

pub record ConnectResponse : Type 0 where
  pub protocol_version : ℕ
  pub tunnel_id : ℕ
  pub assigned_subdomain : Text
  pub domain : Text
  pub tunnel_protocol : TunnelProtocol
  pub message : Option Text
  pub limits : RequestLimits
  pub public_scheme : Text
  pub public_port : Option ℕ
  pub public_url : Text

pub data TcpCloseReason : Type 0 where
  normal reset timeout : TcpCloseReason
  error : Text → TcpCloseReason

abbrev pub Headers : Type 0
Headers = List (Text × Text)

pub data Message : Type 0 where
  connect : ConnectRequest → Message
  connect_ack : ConnectResponse → Message
  http_request : (id : ℕ) (method path : Text) (headers : Headers) (body : Bytes) → Message
  http_response : (id status : ℕ) (headers : Headers) (body : Bytes) → Message
  http_request_start :
      (id : ℕ) (method path : Text) (headers : Headers) (content_length : Option ℕ) → Message
  http_request_chunk : (id : ℕ) (payload : Bytes) (sequence : ℕ) → Message
  http_request_end : (id : ℕ) → Message
  http_response_start : (id status : ℕ) (headers : Headers) (content_length : Option ℕ) → Message
  http_response_chunk : (id : ℕ) (payload : Bytes) (sequence : ℕ) → Message
  http_response_end : (id : ℕ) → Message
  tcp_connect : (connection_id : ℕ) (remote_addr : Text) → Message
  tcp_connect_ack : (connection_id : ℕ) (success : Bool) (error : Option Text) → Message
  tcp_data : (connection_id : ℕ) (payload : Bytes) (sequence : ℕ) → Message
  tcp_close : (connection_id : ℕ) (reason : TcpCloseReason) → Message
  disconnect : (reason : Option Text) → Message
  error : (code : ErrorCode) (message : Text) → Message

unfoldable pub validate_body_size : ℕ → ℕ → Fallible (Unit {0})
validate_body_size size limit =
    if ltb limit size then err (ExposeError.payload_too_large size limit) else ok tt

abbrev pub default_max_body_size : ℕ
default_max_body_size = 10 * 1024 * 1024

unfoldable pub validate : Message → ℕ → Fallible (Unit {0})
unfolding validate_body_size
validate (Message.http_request _ _ _ _ body) limit = validate_body_size (length body) limit
validate (Message.http_response _ _ _ body) limit = validate_body_size (length body) limit
validate (Message.http_request_chunk _ payload _) limit = validate_body_size (length payload) limit
validate (Message.http_response_chunk _ payload _) limit = validate_body_size (length payload) limit
validate (Message.tcp_data _ payload _) limit = validate_body_size (length payload) limit
validate _ limit = ok tt

-- The payload that a message carries: the specification's view of its size.
abbrev pub payload_size : Message → ℕ
payload_size (Message.http_request _ _ _ _ body) = length body
payload_size (Message.http_response _ _ _ body) = length body
payload_size (Message.http_request_chunk _ payload _) = length payload
payload_size (Message.http_response_chunk _ payload _) = length payload
payload_size (Message.tcp_data _ payload _) = length payload
payload_size _ = 0

pub validate-ok_iff :
    (m : Message) (limit : ℕ) → (validate m limit ≡ ok tt) ↔ (payload_size m ≤ limit)
unfolding validate
validate-ok_iff (Message.http_request _ _ _ _ body) limit = ground arith
validate-ok_iff m limit = ground arith
