-- ===== src/Client/Session.antt =====
-- expose-client/src/tunnel.rs: `handle_frame`, what the client does on a frame from the server. The
-- tasks that it starts and the frames that it sends are a list of actions.
use expose.Prelude.{◌≡◌, refl, ok, err, none, ℕ, List, [], ◌∷◌, Option, some}
use expose.Prelude.Text.{Text, Bytes}
use expose.Common.Types.{TunnelProtocol}
use expose.Common.Error.{ExposeError, ErrorCode, Fallible}
use expose.Common.Message.{Message, Headers}
use expose.Common.Error.{error_code}
use expose.Client.Version.{version_mismatch_error}
use expose.Common.Codec.{Bincode, decode}
use expose.Client.LocalProxy.{
  begin_streaming_request, push_streaming_chunk, finish_streaming_request, LocalProxy,
  StreamingRequest, new_proxy,
}
use expose.Client.TcpProxy.{SocketWrites, handle_data, handle_close, TcpLocalProxy, new_tcp_proxy}

pub data WsMessage : Type 0 where
  text : Text → WsMessage
  binary ping pong : Bytes → WsMessage
  close : Option Text → WsMessage

pub data FrameControl : Type 0 where
  continue close : FrameControl

pub data Action : Type 0 where
  proxy_task : (id : ℕ) (method path : Text) (headers : Headers) (body : Bytes) → Action
  connect_task : (connection_id : ℕ) (remote_addr : Text) → Action
  send_pong : Bytes → Action
  send_protocol : Message → Action

pub record Session : Type 0 where
  pub http_proxy : Option LocalProxy
  pub tcp_proxy : Option TcpLocalProxy

-- The proxies that a session starts with, by the protocol in the acknowledgement.
unfoldable pub open_session : TunnelProtocol → Text → ℕ → Session
open_session TunnelProtocol.http host port = record {
  http_proxy = some (new_proxy host port);
  tcp_proxy = none;
}
open_session TunnelProtocol.tcp host port = record {
  http_proxy = none;
  tcp_proxy = some (new_tcp_proxy host port);
}

abbrev pub Step : Type 0
Step = Fallible FrameControl × Session × List Action

abbrev continue_with : Session → List Action → Step
continue_with s actions = (ok FrameControl.continue, s, actions)

-- A chunk for the HTTP proxy, and data for the TCP proxy: an error ends the session.
abbrev after_push : Session → Fallible LocalProxy → Step
after_push s (ok p) = continue_with (record s { http_proxy = some p }) []
after_push s (err e) = (err e, s, [])

abbrev after_data : Session → Fallible TcpLocalProxy → Step
after_data s (ok p) = continue_with (record s { tcp_proxy = some p }) []
after_data s (err e) = (err e, s, [])

abbrev after_finish : ℕ → Session → Option StreamingRequest × LocalProxy → Step
after_finish id s (none, p) = continue_with (record s { http_proxy = some p }) []
after_finish id s (some r, p) =
    continue_with (record s { http_proxy = some p })
      (proxy_task id r.method r.path r.headers r.body ∷ [])

unfoldable pub protocol_error_from_message : ErrorCode → Text → ExposeError
protocol_error_from_message ErrorCode.authentication_failed message =
    ExposeError.authentication message
protocol_error_from_message ErrorCode.subdomain_unavailable message =
    ExposeError.subdomain_taken message
protocol_error_from_message ErrorCode.rate_limit_exceeded message =
    ExposeError.capacity_exceeded message
protocol_error_from_message ErrorCode.protocol_mismatch message = version_mismatch_error message
protocol_error_from_message ErrorCode.internal_error message = ExposeError.internal message

-- An error code that the client receives becomes an error with that very code, but for a rate
-- limit, which becomes an error with the internal code.
pub error_code-protocol_error_from_message :
    (code : ErrorCode) (message : Text)
    → error_code (protocol_error_from_message code message)
      ≡ elim code [ ErrorCode.rate_limit_exceeded ↦ ErrorCode.internal_error | other ↦ other ]
unfolding protocol_error_from_message error_code version_mismatch_error
error_code-protocol_error_from_message ErrorCode.authentication_failed message = refl
error_code-protocol_error_from_message ErrorCode.subdomain_unavailable message = refl
error_code-protocol_error_from_message ErrorCode.rate_limit_exceeded message = refl
error_code-protocol_error_from_message ErrorCode.protocol_mismatch message = refl
error_code-protocol_error_from_message ErrorCode.internal_error message = refl

-- What the client does on a message that it has decoded.
unfoldable pub handle_message : SocketWrites → Message → Session → Step
handle_message writes (Message.http_request id method path headers body) s = elim s.http_proxy [
  | some p ↦ continue_with s (proxy_task id method path headers body ∷ [])
  | none ↦ continue_with s []
]
handle_message writes (Message.http_request_start id method path headers content_length) s =
    elim s.http_proxy [
      | some p ↦
          continue_with
            (record s { http_proxy = some (begin_streaming_request id method path headers p) }) []
      | none ↦ continue_with s []
    ]
handle_message writes (Message.http_request_chunk id payload sequence) s = elim s.http_proxy [
  | some p ↦ after_push s (push_streaming_chunk id payload p)
  | none ↦ continue_with s []
]
handle_message writes (Message.http_request_end id) s = elim s.http_proxy [
  | some p ↦ after_finish id s (finish_streaming_request id p)
  | none ↦ continue_with s []
]
handle_message writes (Message.tcp_connect connection_id remote_addr) s = elim s.tcp_proxy [
  | some p ↦ continue_with s (connect_task connection_id remote_addr ∷ [])
  | none ↦ continue_with s []
]
handle_message writes (Message.tcp_data connection_id payload sequence) s = elim s.tcp_proxy [
  | some p ↦ after_data s (handle_data writes connection_id payload p)
  | none ↦ continue_with s []
]
handle_message writes (Message.tcp_close connection_id reason) s = elim s.tcp_proxy [
  | some p ↦ continue_with (record s { tcp_proxy = some (handle_close connection_id p) }) []
  | none ↦ continue_with s []
]
handle_message writes (Message.disconnect reason) s =
    (err (ExposeError.tunnel_disconnected reason), s, [])
handle_message writes (Message.error code message) s =
    (err (protocol_error_from_message code message), s, [])
handle_message writes _ s = continue_with s []

abbrev decoded : SocketWrites → Fallible Message → Session → Step
decoded writes (ok m) s = handle_message writes m s
decoded writes (err e) s = (err e, s, [])

unfoldable pub handle_frame : Bincode → SocketWrites → WsMessage → Session → Step
handle_frame b writes (WsMessage.binary bytes) s = decoded writes (decode b bytes) s
handle_frame b writes (WsMessage.ping payload) s = continue_with s (send_pong payload ∷ [])
handle_frame b writes (WsMessage.pong payload) s = continue_with s []
handle_frame b writes (WsMessage.close reason) s = (ok FrameControl.close, s, [])
handle_frame b writes (WsMessage.text t) s = continue_with s []
