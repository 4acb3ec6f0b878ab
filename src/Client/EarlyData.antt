-- ===== src/Client/EarlyData.antt =====
-- expose-client/src/tunnel.rs and expose-client/src/tcp_proxy.rs: the task that opens a local TCP
-- connection runs beside the loop, and data for the connection may come before it is done.
use expose.Prelude.{ℕ, ◌≡◌, refl, true, List, [], ◌∷◌, ◌++◌, Option, none, some, ok, err}
use expose.Prelude.Assoc.{nat_eq, lookup, insert, lookup-insert_self}
use expose.Prelude.Text.{Text, Bytes, lit, show}
use expose.Common.Error.{ExposeError}
use expose.Common.Message.{Message}
use expose.Common.Codec.{Bincode, decode}
use expose.Client.LocalProxy.{LocalProxy}
use expose.Client.TcpProxy.{SocketWrites, TcpLocalProxy, handle_data, handle_connect}
use expose.Client.Session.{
  WsMessage, FrameControl, connect_task, send_protocol, Session, handle_message, handle_frame,
}
use expose.Client.Loop.{Event, received, connected, failed, prepend, session_loop}

-- A session for TCP, and one whose connection has these bytes written to it.
abbrev pub with_tcp : TcpLocalProxy → Option LocalProxy → Session
with_tcp p h = record { http_proxy = h; tcp_proxy = some p }

abbrev pub with_connection : ℕ → Bytes → TcpLocalProxy → TcpLocalProxy
with_connection id written p = record p {
  connections = insert id written (insert id [] p.connections);
}

pub data_known :
    (writes : SocketWrites) (id sequence : ℕ) (payload w : Bytes) (p : TcpLocalProxy)
    (h : Option LocalProxy)
    → lookup id p.connections ≡ some w
    → writes id payload ≡ none
    → handle_message writes (Message.tcp_data id payload sequence) (with_tcp p h) ≡ (
      ok FrameControl.continue,
      with_tcp (record p { connections = insert id (w ++ payload) p.connections }) h,
      [],
    )
unfolding handle_message handle_data
data_known writes id sequence payload w p h e f = rw (e, f, handle_message, handle_data) refl

data_unknown :
    (writes : SocketWrites) (id sequence : ℕ) (payload : Bytes) (p : TcpLocalProxy)
    (h : Option LocalProxy)
    → lookup id p.connections ≡ none
    → handle_message writes (Message.tcp_data id payload sequence) (with_tcp p h) ≡ (
      err (ExposeError.invalid_message (lit "TCP data for unknown connection " ++ show id)),
      with_tcp p h,
      [],
    )
unfolding handle_message handle_data
data_unknown writes id sequence payload p h e = rw (e, handle_message, handle_data) refl

connect_known :
    (writes : SocketWrites) (id : ℕ) (addr : Text) (p : TcpLocalProxy) (h : Option LocalProxy)
    → handle_message writes (Message.tcp_connect id addr) (with_tcp p h)
      ≡ (ok FrameControl.continue, with_tcp p h, connect_task id addr ∷ [])
unfolding handle_message
connect_known writes id addr p h = refl

-- The order decides. When the task that opens a new connection is done before the first data for
-- it, the data is written to the local service and the loop goes on; when the data comes first, the
-- very same frames end the whole session with an error, whatever events follow. The connection is
-- new, both frames decode, and the write works.
pub session_loop-early_data :
    (b : Bincode) (writes : SocketWrites) (id sequence : ℕ) (addr : Text) (payload x y : Bytes)
    (rest : List Event) (p : TcpLocalProxy) (h : Option LocalProxy)
    → decode b x ≡ ok (Message.tcp_connect id addr)
    → decode b y ≡ ok (Message.tcp_data id payload sequence)
    → lookup id p.connections ≡ none
    → writes id payload ≡ none
    → (session_loop b writes
          (received (WsMessage.binary x)
            ∷ connected id (ok tt)
            ∷ received (WsMessage.binary y)
            ∷ rest)
          (with_tcp p h)
        ≡ prepend
            (connect_task id addr ∷ send_protocol (Message.tcp_connect_ack id true none) ∷ [])
            (session_loop b writes rest (with_tcp (with_connection id payload p) h)))
      × (session_loop b writes
            (received (WsMessage.binary x) ∷ received (WsMessage.binary y) ∷ rest)
            (with_tcp p h)
          ≡ (
            some (
                failed (
                  ExposeError.invalid_message (lit "TCP data for unknown connection " ++ show id))),
            with_tcp p h,
            connect_task id addr ∷ [],
          ))
unfolding session_loop handle_frame handle_connect
session_loop-early_data b writes id sequence addr payload x y rest p h ex ey n w = (
  rw
      (
        ex,
        ey,
        connect_known writes id addr p h,
        data_known writes id sequence payload []
            (record p { connections = insert id [] p.connections }) h
            (lookup-insert_self id [] p.connections) w,
      )
      refl,
  rw (ex, ey, connect_known writes id addr p h, data_unknown writes id sequence payload p h n) refl,
)
