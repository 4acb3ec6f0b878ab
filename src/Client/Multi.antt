-- ===== src/Client/Multi.antt =====
-- expose-client/src/multi.rs: `MultiTunnelManager`, which serves several tunnels over one
-- connection, and `handle_frame`, what it does on a frame from the server. The proxies that the
-- source shares by `Arc` stand in the table of contexts; a task that is started names its tunnel.
-- Lower-casing by Unicode, the debug form of a reason and the order in which a `HashMap` gives its
-- values are the standard library's and a parameter.
pub mod Routing
pub mod Frames
pub mod Opening
pub mod Opened
pub mod Rounds
pub mod Streams
pub mod Delivery
pub mod Sharing
pub mod OneSocket
use expose.Prelude.{
  ℕ, ◌++◌, ◌≡◌, List, [], ◌∷◌, Option, none, some, ok, err, find, All, ltb, if◌then◌else◌,
}
use expose.Prelude.Assoc.{nat_eq, lookup, insert, remove}
use expose.Prelude.Text.{Text, Bytes, lit, text_eq, text_beq, to_ascii_lowercase, before}
use expose.Common.Types.{TunnelProtocol, TunnelConfig, same_protocol}
use expose.Common.Error.{ExposeError, ErrorCode, Fallible}
use expose.Common.Message.{Message, ConnectResponse, Headers}
use expose.Common.Codec.{Bincode, decode}
use expose.Client.LocalProxy.{
  LocalProxy, StreamingRequest, new_proxy, begin_streaming_request, push_streaming_chunk,
  finish_streaming_request,
}
use expose.Client.TcpProxy.{SocketWrites, TcpLocalProxy, new_tcp_proxy, handle_data, handle_close}
use expose.Client.Session.{WsMessage}

pub record TunnelContext : Type 0 where
  pub tunnel_id : ℕ
  pub protocol : TunnelProtocol
  pub http_proxy : Option LocalProxy
  pub tcp_proxy : Option TcpLocalProxy

pub record MultiTunnelManager : Type 0 where
  pub contexts : List (ℕ × TunnelContext)
  pub subdomains : List (Text × ℕ)
  pub http_requests : List (ℕ × ℕ)
  pub tcp_connections : List (ℕ × ℕ)

-- The standard library: `to_lowercase`, `{:?}` of an optional text, and `HashMap::values`.
pub record Standard : Type 0 where
  pub to_lowercase : Text → Text
  pub debug : Option Text → Text
  pub values : List (ℕ × TunnelContext) → List TunnelContext

-- `values` gives nothing but values of the map.
abbrev pub GivesValues : Standard → Type 0
GivesValues std =
    (m : List (ℕ × TunnelContext)) → All (λ c. (t : ℕ) × (lookup t m ≡ some c)) (std.values m)

unfoldable pub new_manager : MultiTunnelManager
new_manager = record { contexts = []; subdomains = []; http_requests = []; tcp_connections = [] }

unfoldable pub new_context : ConnectResponse → TunnelConfig → TunnelContext
new_context ack cfg = record {
  tunnel_id = ack.tunnel_id;
  protocol = ack.tunnel_protocol;
  http_proxy =
      if same_protocol ack.tunnel_protocol TunnelProtocol.http
      then some (new_proxy cfg.local_host cfg.local_port)
      else none;
  tcp_proxy =
      if same_protocol ack.tunnel_protocol TunnelProtocol.tcp
      then some (new_tcp_proxy cfg.local_host cfg.local_port)
      else none;
}

unfoldable pub register_context :
    Standard → ConnectResponse → TunnelConfig → MultiTunnelManager → MultiTunnelManager
unfolding new_context
register_context std ack cfg m = record m {
  subdomains = insert (std.to_lowercase ack.assigned_subdomain) ack.tunnel_id m.subdomains;
  contexts = insert ack.tunnel_id (new_context ack cfg) m.contexts;
}

-- The first header whose name is `host`, whatever its case, in lower case.
unfoldable pub host_header : Standard → Headers → Option Text
host_header std [] = none
host_header std ((name, value) ∷ headers) =
    if text_beq (expose.Prelude.map to_ascii_lowercase name) (lit "host")
    then some (std.to_lowercase value)
    else host_header std headers

-- What stands before the port and before the first dot.
unfoldable pub host_label : Text → Text
host_label host = before b'.' (before b':' host)

abbrev serves : TunnelProtocol → TunnelContext → expose.Prelude.Bool
serves protocol c = same_protocol c.protocol protocol

abbrev pub first_http : Standard → MultiTunnelManager → Option TunnelContext
first_http std m = find (serves TunnelProtocol.http) (std.values m.contexts)

-- A known subdomain decides, even when its tunnel has no context any more.
abbrev pub context_named : Standard → MultiTunnelManager → Option ℕ → Option TunnelContext
context_named std m (some tunnel_id) = lookup tunnel_id m.contexts
context_named std m none = first_http std m

abbrev pub context_for_host : Standard → MultiTunnelManager → Option Text → Option TunnelContext
context_for_host std m none = first_http std m
context_for_host std m (some host) = context_named std m (lookup (host_label host) m.subdomains)

unfoldable pub http_context_by_headers :
    Standard → Headers → MultiTunnelManager → Option TunnelContext
unfolding host_header host_label
http_context_by_headers std headers m = context_for_host std m (host_header std headers)

abbrev pub context_of : MultiTunnelManager → Option ℕ → Option TunnelContext
context_of m none = none
context_of m (some tunnel_id) = lookup tunnel_id m.contexts

unfoldable pub http_context_for_request : ℕ → MultiTunnelManager → Option TunnelContext
http_context_for_request id m = context_of m (lookup id m.http_requests)

unfoldable pub track_http_request :
    (request_id tunnel_id : ℕ) → MultiTunnelManager → MultiTunnelManager
track_http_request id tunnel_id m = record m { http_requests = insert id tunnel_id m.http_requests }

unfoldable pub clear_http_request : ℕ → MultiTunnelManager → MultiTunnelManager
clear_http_request id m = record m { http_requests = remove id m.http_requests }

unfoldable pub pick_tcp_context : Standard → MultiTunnelManager → Option TunnelContext
pick_tcp_context std m = find (serves TunnelProtocol.tcp) (std.values m.contexts)

unfoldable pub track_tcp_connection :
    (connection_id tunnel_id : ℕ) → MultiTunnelManager → MultiTunnelManager
track_tcp_connection id tunnel_id m = record m {
  tcp_connections = insert id tunnel_id m.tcp_connections;
}

unfoldable pub tcp_context : ℕ → MultiTunnelManager → Option TunnelContext
tcp_context id m = context_of m (lookup id m.tcp_connections)

unfoldable pub remove_tcp_connection : ℕ → MultiTunnelManager → MultiTunnelManager
remove_tcp_connection id m = record m { tcp_connections = remove id m.tcp_connections }

-- Tasks that are started for a tunnel, and frames that are sent.
pub data Effect : Type 0 where
  http_task : (tunnel_id id : ℕ) (method path : Text) (headers : Headers) (body : Bytes) → Effect
  tcp_task : (tunnel_id connection_id : ℕ) (remote_addr : Text) → Effect
  pong : Bytes → Effect
  protocol : Message → Effect

abbrev pub MultiStep : Type 0
MultiStep = Fallible (Unit {0}) × MultiTunnelManager × List Effect

abbrev pub go : MultiTunnelManager → List Effect → MultiStep
go m effects = (ok tt, m, effects)

-- A context with its proxy of the wanted kind.
abbrev pub http_of : Option TunnelContext → Option (TunnelContext × LocalProxy)
http_of none = none
http_of (some c) = elim c.http_proxy [ none ↦ none | some p ↦ some (c, p) ]

abbrev pub tcp_of : Option TunnelContext → Option (TunnelContext × TcpLocalProxy)
tcp_of none = none
tcp_of (some c) = elim c.tcp_proxy [ none ↦ none | some p ↦ some (c, p) ]

-- A proxy that changed, in its context.
abbrev pub put_http : TunnelContext → LocalProxy → MultiTunnelManager → MultiTunnelManager
put_http c p m = record m {
  contexts = insert c.tunnel_id (record c { http_proxy = some p }) m.contexts;
}

abbrev pub put_tcp : TunnelContext → TcpLocalProxy → MultiTunnelManager → MultiTunnelManager
put_tcp c p m = record m {
  contexts = insert c.tunnel_id (record c { tcp_proxy = some p }) m.contexts;
}

abbrev pub request_to :
    (id : ℕ) (method path : Text) (headers : Headers) (body : Bytes)
    → MultiTunnelManager
    → Option (TunnelContext × LocalProxy)
    → MultiStep
request_to id method path headers body m none = go m []
request_to id method path headers body m (some (c, p)) =
    go m (http_task c.tunnel_id id method path headers body ∷ [])

abbrev pub start_in :
    (id : ℕ) (method path : Text) (headers : Headers)
    → MultiTunnelManager
    → Option (TunnelContext × LocalProxy)
    → MultiStep
start_in id method path headers m none = go m []
start_in id method path headers m (some (c, p)) =
    go
      (track_http_request id c.tunnel_id
        (put_http c (begin_streaming_request id method path headers p) m))
      []

abbrev pub after_chunk : TunnelContext → MultiTunnelManager → Fallible LocalProxy → MultiStep
after_chunk c m (ok p) = go (put_http c p m) []
after_chunk c m (err e) = (err e, m, [])

abbrev pub chunk_in :
    ℕ → Bytes → MultiTunnelManager → Option (TunnelContext × LocalProxy) → MultiStep
chunk_in id payload m none = go m []
chunk_in id payload m (some (c, p)) = after_chunk c m (push_streaming_chunk id payload p)

abbrev pub finished_task : ℕ → TunnelContext → Option StreamingRequest → List Effect
finished_task id c none = []
finished_task id c (some r) = http_task c.tunnel_id id r.method r.path r.headers r.body ∷ []

-- The end of a stream clears its route in every case.
abbrev pub end_in : ℕ → MultiTunnelManager → Option (TunnelContext × LocalProxy) → MultiStep
end_in id m none = go (clear_http_request id m) []
end_in id m (some (c, p)) =
    go (clear_http_request id (put_http c (finish_streaming_request id p).1 m))
      (finished_task id c (finish_streaming_request id p).0)

abbrev pub connect_in :
    ℕ → Text → MultiTunnelManager → Option (TunnelContext × TcpLocalProxy) → MultiStep
connect_in id remote_addr m none = go m []
connect_in id remote_addr m (some (c, p)) =
    go (track_tcp_connection id c.tunnel_id m) (tcp_task c.tunnel_id id remote_addr ∷ [])

abbrev pub after_write : TunnelContext → MultiTunnelManager → Fallible TcpLocalProxy → MultiStep
after_write c m (ok p) = go (put_tcp c p m) []
after_write c m (err e) = (err e, m, [])

abbrev pub data_in :
    SocketWrites
    → ℕ
    → Bytes
    → MultiTunnelManager
    → Option (TunnelContext × TcpLocalProxy)
    → MultiStep
data_in writes id payload m none = go m []
data_in writes id payload m (some (c, p)) = after_write c m (handle_data writes id payload p)

abbrev pub close_in : ℕ → MultiTunnelManager → Option (TunnelContext × TcpLocalProxy) → MultiStep
close_in id m none = go (remove_tcp_connection id m) []
close_in id m (some (c, p)) = go (remove_tcp_connection id (put_tcp c (handle_close id p) m)) []

-- `protocol_error_from_message` of multi.rs: every code becomes an I/O error.
unfoldable pub multi_error : ErrorCode → Text → ExposeError
multi_error ErrorCode.authentication_failed message =
    ExposeError.network (lit "authentication failed: " ++ message)
multi_error ErrorCode.subdomain_unavailable message =
    ExposeError.network (lit "subdomain unavailable: " ++ message)
multi_error ErrorCode.rate_limit_exceeded message =
    ExposeError.network (lit "rate limited: " ++ message)
multi_error ErrorCode.protocol_mismatch message = ExposeError.network message
multi_error ErrorCode.internal_error message = ExposeError.network message

unfoldable pub multi_message : Standard → SocketWrites → Message → MultiTunnelManager → MultiStep
unfolding track_http_request clear_http_request track_tcp_connection remove_tcp_connection
multi_message std writes (Message.http_request id method path headers body) m =
    request_to id method path headers body m (http_of (http_context_by_headers std headers m))
multi_message std writes (Message.http_request_start id method path headers content_length) m =
    start_in id method path headers m (http_of (http_context_by_headers std headers m))
multi_message std writes (Message.http_request_chunk id payload sequence) m =
    chunk_in id payload m (http_of (http_context_for_request id m))
multi_message std writes (Message.http_request_end id) m =
    end_in id m (http_of (http_context_for_request id m))
multi_message std writes (Message.tcp_connect connection_id remote_addr) m =
    connect_in connection_id remote_addr m (tcp_of (pick_tcp_context std m))
multi_message std writes (Message.tcp_data connection_id payload sequence) m =
    data_in writes connection_id payload m (tcp_of (tcp_context connection_id m))
multi_message std writes (Message.tcp_close connection_id reason) m =
    close_in connection_id m (tcp_of (tcp_context connection_id m))
multi_message std writes (Message.disconnect reason) m =
    (err (ExposeError.network (lit "Server requested disconnect: " ++ std.debug reason)), m, [])
multi_message std writes (Message.error code message) m = (err (multi_error code message), m, [])
multi_message std writes _ m = go m []

abbrev multi_decoded : Standard → SocketWrites → Fallible Message → MultiTunnelManager → MultiStep
multi_decoded std writes (ok message) m = multi_message std writes message m
multi_decoded std writes (err e) m = (err e, m, [])

-- `MultiTunnelManager::handle_frame`.
unfoldable pub multi_frame :
    Bincode → Standard → SocketWrites → WsMessage → MultiTunnelManager → MultiStep
multi_frame b std writes (WsMessage.binary bytes) m = multi_decoded std writes (decode b bytes) m
multi_frame b std writes (WsMessage.ping payload) m = go m (pong payload ∷ [])
multi_frame b std writes (WsMessage.close reason) m =
    (err (ExposeError.network (lit "server closed the websocket")), m, [])
multi_frame b std writes _ m = go m []
