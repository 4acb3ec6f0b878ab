-- ===== src/Client/Multi/Opening.antt =====
-- expose-client/src/multi.rs: a session from the connection to its end. Each tunnel asks for itself
-- and waits for its acknowledgement; then frames are handled until the session ends.
use expose.Prelude.{
  ℕ, ◌++◌, true, false, Bool, List, [], ◌∷◌, map, Option, none, some, Result, ok, err,
}
use expose.Prelude.Assoc.{nat_eq, lookup}
use expose.Prelude.Text.{Text, Bytes, lit, show}
use expose.Common.Types.{TunnelConfig}
use expose.Common.Error.{ExposeError, Fallible}
use expose.Common.Message.{Message, ConnectRequest, ConnectResponse}
use expose.Common.Version.{protocol_version}
use expose.Common.Codec.{Bincode, decode}
use expose.Client.TcpProxy.{SocketWrites, TcpLocalProxy, handle_connect}
use expose.Client.Session.{WsMessage}
use expose.Client.Loop.{Termination, shutdown, failed}
use expose.Client.Run.{SessionResult}
use expose.Client.Multi.{
  TunnelContext, MultiTunnelManager, Standard, Effect, pong, protocol, MultiStep, new_manager,
  register_context, multi_frame, multi_error, put_tcp, tcp_of, go,
}

-- What reading the socket gives, up to its end.
abbrev pub Stream : Type 0
Stream = List (Result Text WsMessage)

-- The request of `send_connect`; the version of the client is the build's.
unfoldable pub connect_request : Text → TunnelConfig → ConnectRequest
connect_request client_version config = record {
  protocol_version = protocol_version;
  api_key = config.api_key;
  desired_subdomain = config.subdomain;
  tunnel_protocol = config.protocol;
  client_version = client_version;
  metadata = some (lit "local=" ++ (config.local_host ++ (lit ":" ++ show config.local_port)));
}

-- What a frame means to someone who waits for the acknowledgement.
pub data Reply : Type 0 where
  acknowledged : ConnectResponse → Reply
  refused : ExposeError → Reply
  answered : Bytes → Reply
  passed_over : Reply

abbrev reply_message : Fallible Message → Reply
reply_message (ok (Message.connect_ack response)) = acknowledged response
reply_message (ok (Message.error code message)) = refused (multi_error code message)
reply_message (ok _) = passed_over
reply_message (err e) = refused e

unfoldable pub multi_reply : Bincode → Standard → Result Text WsMessage → Reply
multi_reply b std (ok (WsMessage.binary bytes)) = reply_message (decode b bytes)
multi_reply b std (ok (WsMessage.ping payload)) = answered payload
multi_reply b std (ok (WsMessage.close reason)) =
    refused (ExposeError.network (lit "server closed during handshake: " ++ std.debug reason))
multi_reply b std (ok _) = passed_over
multi_reply b std (err e) = refused (ExposeError.web_socket e)

-- The acknowledgement, the pongs that were sent meanwhile, and the rest of the stream.
abbrev pub Waited : Type 0
Waited = Fallible ConnectResponse × List Effect × Stream

abbrev pub sent_pong : Bytes → Waited → Waited
sent_pong payload w = (w.0, pong payload ∷ w.1, w.2)

abbrev pub after_reply : Reply → Stream → Waited → Waited
after_reply (acknowledged response) rest later = (ok response, [], rest)
after_reply (refused e) rest later = (err e, [], rest)
after_reply (answered payload) rest later = sent_pong payload later
after_reply passed_over rest later = later

unfoldable pub wait_for_connect_ack : Bincode → Standard → Stream → Waited
unfolding multi_reply
wait_for_connect_ack b std [] =
    (err (ExposeError.network (lit "server closed before sending ConnectAck")), [], [])
wait_for_connect_ack b std (f ∷ rest) =
    let later = wait_for_connect_ack b std rest in after_reply (multi_reply b std f) rest later

-- The result, the manager, what was sent, and the rest of the stream.
abbrev pub Opened : Type 0
Opened = Fallible (Unit {0}) × MultiTunnelManager × List Effect × Stream

abbrev pub preceded : List Effect → Opened → Opened
preceded effects o = (o.0, o.1, effects ++ o.2, o.3)

abbrev pub after_ack :
    Standard
    → TunnelConfig
    → Effect
    → MultiTunnelManager
    → Waited
    → (MultiTunnelManager → Stream → Opened)
    → Opened
after_ack std cfg request m (ok ack, pongs, rest) k =
    preceded (request ∷ pongs) (k (register_context std ack cfg m) rest)
after_ack std cfg request m (err e, pongs, rest) k = (err e, m, request ∷ pongs, rest)

-- The loop over the tunnels of the configuration. `queue` gives the error of the channel to the
-- writer task when it is closed; nothing is sent from then on.
unfoldable pub open_tunnels :
    Bincode
    → Standard
    → (client_version : Text) (queue : TunnelConfig → Option Text) → List TunnelConfig
    → MultiTunnelManager
    → Stream
    → Opened
unfolding wait_for_connect_ack connect_request
open_tunnels b std v queue [] m stream = (ok tt, m, [], stream)
open_tunnels b std v queue (cfg ∷ cfgs) m stream = elim (queue cfg) [
  | some e ↦ (err (ExposeError.network e), m, [], stream)
  | none ↦
      after_ack std cfg (protocol (Message.connect (connect_request v cfg))) m
        (wait_for_connect_ack b std stream) (λ m' rest. open_tunnels b std v queue cfgs m' rest)
]

-- What the loop waits for, and the end of a task that opens a local TCP connection.
pub data MultiEvent : Type 0 where
  cancelled : MultiEvent
  received : Result Text WsMessage → MultiEvent
  connected : (tunnel_id connection_id : ℕ) → Result Text (Unit {0}) → MultiEvent

-- How the loop ended, none while it waits.
abbrev pub MultiEnded : Type 0
MultiEnded = Option Termination × MultiTunnelManager × List Effect

abbrev pub following : List Effect → MultiEnded → MultiEnded
following effects e = (e.0, e.1, effects ++ e.2)

abbrev pub after_multi : MultiStep → (MultiTunnelManager → MultiEnded) → MultiEnded
after_multi (ok _, m, effects) k = following effects (k m)
after_multi (err e, m, effects) k = (some (failed e), m, effects)

-- `TcpLocalProxy::handle_connect` in its task.
abbrev pub connect_done :
    ℕ
    → Result Text (Unit {0})
    → MultiTunnelManager
    → Option (TunnelContext × TcpLocalProxy)
    → MultiStep
connect_done id outcome m none = go m []
connect_done id outcome m (some (c, p)) =
    go (put_tcp c (handle_connect id outcome p).1 m) (protocol (handle_connect id outcome p).0 ∷ [])

-- When nothing more comes, the loop waits: the branch of the shutdown signal is never disabled, so
-- the end of the stream does not end the loop, and its `else` branch is never taken.
unfoldable pub multi_loop :
    Bincode → Standard → SocketWrites → List MultiEvent → MultiTunnelManager → MultiEnded
multi_loop b std writes [] m = (none, m, [])
multi_loop b std writes (cancelled ∷ events) m =
    (some shutdown, m, protocol (Message.disconnect (some (lit "client shutdown"))) ∷ [])
multi_loop b std writes (received (ok frame) ∷ events) m =
    after_multi (multi_frame b std writes frame m) (λ m'. multi_loop b std writes events m')
multi_loop b std writes (received (err e) ∷ events) m =
    (some (failed (ExposeError.web_socket e)), m, [])
multi_loop b std writes (connected tunnel_id id outcome ∷ events) m =
    after_multi (connect_done id outcome m (tcp_of (lookup tunnel_id m.contexts)))
      (λ m'. multi_loop b std writes events m')

-- What a session takes from outside: whether the address parses and the connection is made, what is
-- read until the last acknowledgement, what happens afterwards, and how the writer task ends, none
-- while it runs.
pub record MultiSession : Type 0 where
  pub parsed : Result Text (Unit {0})
  pub connection : Result Text (Unit {0})
  pub queue : TunnelConfig → Option Text
  pub stream : Stream
  pub events : List MultiEvent
  pub writer : Option (Result Text (Fallible (Unit {0})))

-- The result of a session, none while its loop or its writer runs.
abbrev pub session_end :
    Option (Result Text (Fallible (Unit {0}))) → Option Termination → Option SessionResult
session_end writer none = none
session_end none (some t) = none
session_end (some (err e)) (some t) =
    some (SessionResult.reconnect (ExposeError.network (lit "writer task failed: " ++ e)) true)
session_end (some (ok (err e))) (some t) = some (SessionResult.reconnect e true)
session_end (some (ok (ok _))) (some shutdown) = some (SessionResult.shutdown true)
session_end (some (ok (ok _))) (some (failed e)) = some (SessionResult.reconnect e true)

module _ (b : Bincode) (std : Standard) (writes : SocketWrites) (client_version : Text) where
  abbrev pub after_opening : (reconnecting : Bool) → MultiSession → Opened → Option SessionResult
  after_opening reconnecting s (err e, m, effects, rest) =
      some (SessionResult.reconnect e reconnecting)
  after_opening reconnecting s (ok _, m, effects, rest) =
      session_end s.writer (multi_loop b std writes (map received rest ++ s.events) m).0

  abbrev pub after_connection :
      (reconnecting : Bool)
      → List TunnelConfig
      → MultiSession
      → Result Text (Unit {0})
      → Option SessionResult
  after_connection reconnecting cfgs s (err e) =
      some (SessionResult.reconnect (ExposeError.web_socket e) false)
  after_connection reconnecting cfgs s (ok _) =
      after_opening reconnecting s
        (open_tunnels b std client_version s.queue cfgs new_manager s.stream)

  abbrev after_parse :
      (reconnecting : Bool)
      → List TunnelConfig
      → MultiSession
      → Result Text (Unit {0})
      → Option SessionResult
  after_parse reconnecting cfgs s (err e) =
      some (SessionResult.reconnect (ExposeError.network e) false)
  after_parse reconnecting cfgs s (ok _) = after_connection reconnecting cfgs s s.connection

  unfoldable pub multi_session :
      (reconnecting : Bool) → List TunnelConfig → MultiSession → Option SessionResult
  unfolding open_tunnels multi_loop
  multi_session reconnecting cfgs s = after_parse reconnecting cfgs s s.parsed
