-- ===== src/Client/Loop.antt =====
-- expose-client/src/tunnel.rs: the loop of `run_single_session` after the handshake. What the loop
-- waits for is a list of events: the shutdown signal, a frame, a failed read, or the end of a task
-- that opens a local TCP connection, which runs beside the loop. When nothing more comes, the loop
-- waits: the branch of the shutdown signal is never disabled, so the end of the stream of frames
-- does not end the loop, and its `else` branch is never taken.
use expose.Prelude.{ℕ, List, [], ◌∷◌, ◌++◌, Option, none, some, Result, ok, err}
use expose.Prelude.Text.{Text, lit}
use expose.Common.Error.{ExposeError}
use expose.Common.Message.{Message}
use expose.Common.Codec.{Bincode}
use expose.Client.TcpProxy.{SocketWrites, TcpLocalProxy, handle_connect}
use expose.Client.Session.{
  WsMessage, FrameControl, Action, send_protocol, Session, Step, handle_frame,
}

pub data Event : Type 0 where
  cancelled : Event
  received : WsMessage → Event
  unreadable : Text → Event
  connected : (connection_id : ℕ) → Result Text (Unit {0}) → Event

pub data Termination : Type 0 where
  shutdown : Termination
  failed : ExposeError → Termination

-- How the loop ended, none while it waits, the session then, and what it did, oldest first.
abbrev pub Ended : Type 0
Ended = Option Termination × Session × List Action

abbrev pub prepend : List Action → Ended → Ended
prepend actions e = (e.0, e.1, actions ++ e.2)

-- What comes of a frame: the next event, or the end of the loop.
abbrev pub after_frame : Step → (Session → Ended) → Ended
after_frame (ok FrameControl.continue, s, actions) k = prepend actions (k s)
after_frame (ok FrameControl.close, s, actions) k = (
  some (failed (ExposeError.tunnel_disconnected (some (lit "Server closed tunnel")))),
  s,
  actions,
)
after_frame (err e, s, actions) k = (some (failed e), s, actions)

-- `TcpLocalProxy::handle_connect` in its task: the connection stands, and the server is told.
abbrev pub connect_done : ℕ → Result Text (Unit {0}) → Option TcpLocalProxy → Session → Step
connect_done id outcome none s = (ok FrameControl.continue, s, [])
connect_done id outcome (some p) s = (
  ok FrameControl.continue,
  record s { tcp_proxy = some (handle_connect id outcome p).1 },
  send_protocol (handle_connect id outcome p).0 ∷ [],
)

unfoldable pub session_loop : Bincode → SocketWrites → List Event → Session → Ended
session_loop b writes [] s = (none, s, [])
session_loop b writes (cancelled ∷ events) s =
    (some shutdown, s, send_protocol (Message.disconnect (some (lit "client shutdown"))) ∷ [])
session_loop b writes (received f ∷ events) s =
    after_frame (handle_frame b writes f s) (λ s'. session_loop b writes events s')
session_loop b writes (unreadable e ∷ events) s =
    (some (failed (ExposeError.network (lit "WebSocket read error: " ++ e))), s, [])
session_loop b writes (connected id outcome ∷ events) s =
    after_frame (connect_done id outcome s.tcp_proxy s) (λ s'. session_loop b writes events s')
