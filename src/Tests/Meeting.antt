-- ===== src/Tests/Meeting.antt =====
-- The theorems on both ends of a tunnel at concrete inputs.
use expose.Prelude.{Result, ◌≡◌, refl, ◌++◌, true, List, [], ◌∷◌, map, none, some, ok, err, arith}
use expose.Prelude.Assoc.{lookup, insert, remove, nat_eq}
use expose.Prelude.Text.{
  Text, Bytes, text_eq, text_beq, lit, show, digits, trim, trim_start, is_whitespace,
  to_ascii_lowercase, is_ascii_alphanumeric, is_ascii_digit, as_bytes,
}
use expose.Common.Types.{TunnelProtocol, TunnelConfig, default_tunnel, local_endpoint}
use expose.Common.Error.{ExposeError}
use expose.Common.Message.{Message, ConnectResponse, TcpCloseReason}
use expose.Common.Codec.{encode, decode}
use expose.Common.Subdomain.{sanitize_subdomain, starts_with_char, ends_with_char}
use expose.Common.Version.{check, is_compatible, versions_compatible, major_version}
use expose.Server.Tunnels.{
  new_manager, register_tunnel, get, new_handle, allocate_subdomain, key_exhausted,
  count_tunnels_for_key,
}
use expose.Server.Keys.{validate_api_key}
use expose.Server.Config.{default_config}
use expose.Server.Handshake.{handshake, open_tunnel, acknowledge}
use expose.Server.Socket.{Arrival}
use expose.Server.Connecting.{wait_for_connect, handle_socket}
use expose.Server.Proxy.Streaming.{Channel}
use expose.Server.TcpTasks.{tcp_read_loop}
use expose.Client.Session.{WsMessage, connect_task, send_protocol}
use expose.Client.TcpProxy.{TcpLocalProxy, new_tcp_proxy}
use expose.Client.Loop.{cancelled, received, connected, failed, prepend, session_loop}
use expose.Client.EarlyData.{with_tcp, with_connection, session_loop-early_data}
use expose.Client.Relay.{reads_of, data_messages, Writes, tcp_read_loop-session_loop}
use expose.Client.Handshake.{client_request, perform_handshake, pongs, reads}
use expose.Client.Agreement.{handshakes-agree}
use expose.Client.Multi.{new_manager as no_tunnels}
use expose.Client.Multi.Opening.{open_tunnels}
use expose.Client.Multi.OneSocket.{open_tunnels-handle_socket}
use expose.Tests.Format.{format, format-RoundTrips}
use expose.Tests.Several.{standard, writes_all}
use expose.Tests.Sockets.{state, outside, opened}
use expose.Client.SingleSession.{SingleSession}

program : Unit {0}
unfolding lit show digits expose.Common.Subdomain.Filter.allowed trim trim_start is_whitespace
    to_ascii_lowercase is_ascii_alphanumeric is_ascii_digit as_bytes text_beq sanitize_subdomain
    starts_with_char ends_with_char lookup insert remove check is_compatible versions_compatible
    major_version new_manager register_tunnel get new_handle allocate_subdomain key_exhausted
    count_tunnels_for_key validate_api_key default_tunnel local_endpoint client_request
    expose.Common.Response.build expose.Common.Response.scheme expose.Common.Response.port_suffix
    expose.Common.Response.advertised_port encode decode expose.Common.Message.validate handshake
    open_tunnel acknowledge expose.Client.Handshake.heard wait_for_connect handle_socket
    expose.Client.Multi.Opening.multi_reply new_tcp_proxy expose.Common.Message.validate_body_size
    expose.Server.Socket.serve expose.Server.Config.effective_public_port
program = tt

abbrev config : TunnelConfig
config = record default_tunnel { subdomain = some (lit "App") }

-- The bytes of a message; none of the messages here fails to be written.
abbrev bytes_of : Message → Bytes
bytes_of m = elim (encode format m) [ ok bs ↦ bs | err e ↦ [] ]

abbrev asked : Bytes
asked = bytes_of (Message.connect (client_request [] config))

abbrev greeting : List Message
greeting = (handshake outside (client_request [] config) state).1

abbrev first_of : List Message → Bytes
first_of [] = []
first_of (m ∷ ms) = bytes_of m

abbrev quiet : List WsMessage
quiet = WsMessage.ping (5 ∷ []) ∷ WsMessage.text (lit "hello") ∷ []

handshakes-agree_example :
    let s' = (handshake outside (client_request [] config) state).2 in
    let t = opened TunnelProtocol.http in
    (wait_for_connect format [] (Arrival.binary asked ∷ [])
      ≡ (ok (client_request [] config), [], []))
    × (validate_api_key outside.crypto state.config.api_keys config.api_key ≡ true)
    × ((ack : ConnectResponse) × (perform_handshake format
            (λ n. none)
            (client_request [] config)
            (reads quiet (ok (WsMessage.binary (first_of greeting)) ∷ []))
          ≡ (ok ack, WsMessage.binary asked ∷ pongs format quiet, []))
        × (ack.tunnel_id ≡ t.id)
        × (ack.assigned_subdomain ≡ t.subdomain)
        × (get s'.manager ack.assigned_subdomain ≡ some t))
unfolding program
handshakes-agree_example =
    handshakes-agree format [] [] config asked (first_of greeting) [] outside state
      (handshake outside (client_request [] config) state).2 (opened TunnelProtocol.http) greeting
      (λ n. none) quiet [] format-RoundTrips (λ n. refl) (tt, (tt, tt)) refl refl (refl, tt)

open_tunnels-handle_socket_example : ¬ (
    (open_tunnels format standard []
      (λ cfg. none)
      (config ∷ config ∷ [])
      no_tunnels
      (ok (WsMessage.binary (first_of greeting)) ∷ [])).0
    ≡ ok tt)
unfolding program
open_tunnels-handle_socket_example =
    open_tunnels-handle_socket format standard [] [] (λ cfg. none) (config ∷ config ∷ []) no_tunnels
      (ok (WsMessage.binary (first_of greeting)) ∷ []) writes_all outside
      (Arrival.binary asked ∷ Arrival.binary asked ∷ []) state (omega arith) (omega arith)

abbrev local : TcpLocalProxy
local = new_tcp_proxy (lit "127.0.0.1") 5432

session_loop-early_data_example :
    let x = bytes_of (Message.tcp_connect 4 (lit "10.0.0.9:1")) in
    let y = bytes_of (Message.tcp_data 4 (7 ∷ 8 ∷ []) 0) in
    (session_loop format writes_all
        (received (WsMessage.binary x) ∷ connected 4 (ok tt) ∷ received (WsMessage.binary y) ∷ [])
        (with_tcp local none)
      ≡ prepend
          (connect_task 4 (lit "10.0.0.9:1")
            ∷ send_protocol (Message.tcp_connect_ack 4 true none)
            ∷ [])
          (session_loop format writes_all []
            (with_tcp (with_connection 4 (7 ∷ 8 ∷ []) local) none)))
    × (session_loop format writes_all
          (received (WsMessage.binary x) ∷ received (WsMessage.binary y) ∷ [])
          (with_tcp local none)
        ≡ (
          some (
              failed
                (ExposeError.invalid_message (lit "TCP data for unknown connection " ++ show 4))),
          with_tcp local none,
          connect_task 4 (lit "10.0.0.9:1") ∷ [],
        ))
unfolding program
session_loop-early_data_example =
    session_loop-early_data format writes_all 4 0 (lit "10.0.0.9:1") (7 ∷ 8 ∷ [])
      (bytes_of (Message.tcp_connect 4 (lit "10.0.0.9:1")))
      (bytes_of (Message.tcp_data 4 (7 ∷ 8 ∷ []) 0)) [] local none refl refl refl refl

abbrev fresh : Channel
fresh = record { sent = []; accepts = λ n. true }

abbrev open_local : TcpLocalProxy
open_local = record local { connections = (4, 1 ∷ []) ∷ [] }

tcp_read_loop-session_loop_example :
    let bs : List Bytes = (7 ∷ 8 ∷ []) ∷ (9 ∷ []) ∷ [] in
    ((tcp_read_loop 4 0 (reads_of bs) fresh).0.sent
      ≡ data_messages 4 0 bs ++ (Message.tcp_close 4 TcpCloseReason.normal ∷ []))
    × Writes format writes_all
        (map bytes_of (data_messages 4 0 bs))
        (cancelled ∷ [])
        4
        (1 ∷ 7 ∷ 8 ∷ 9 ∷ [])
        open_local
        none
unfolding program
tcp_read_loop-session_loop_example =
    tcp_read_loop-session_loop 4 ((7 ∷ 8 ∷ []) ∷ (9 ∷ []) ∷ []) fresh format writes_all
      (map bytes_of (data_messages 4 0 ((7 ∷ 8 ∷ []) ∷ (9 ∷ []) ∷ []))) (cancelled ∷ []) (1 ∷ [])
      open_local none (λ n. refl) format-RoundTrips (λ bytes. refl) refl (refl, (refl, tt))

abbrev attempt : Result Text Text → Result Text (Unit {0}) → SingleSession
attempt parsed connection = record {
  parsed = parsed;
  connection = connection;
  sends = λ n. none;
  incoming = ok (WsMessage.close (some [])) ∷ [];
  events = [];
  queue = [];
  writes = λ n. none;
  joined = some (ok tt);
}

abbrev unparsed : SingleSession
unparsed = attempt (err (lit "empty host")) (ok tt)

abbrev unreached : SingleSession
unreached = attempt (ok (lit "wss://t")) (err (lit "refused"))

abbrev closed_early : SingleSession
closed_early = attempt (ok (lit "wss://t")) (ok tt)
