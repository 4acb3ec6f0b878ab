-- ===== src/Client/Multi/OneSocket.antt =====
-- expose-client/src/multi.rs and expose-server/src/server.rs: a client of several tunnels over the
-- one socket that it opens.
use expose.Prelude.{◌≤◌, ◌≡◌, List, Option, ok, count, length, arith}
use expose.Prelude.Text.{Text}
use expose.Common.Types.{TunnelConfig}
use expose.Common.Codec.{Bincode}
use expose.Server.TcpRegistry
use expose.Server.Handshake.{AppState, Outside}
use expose.Server.Socket.{Arrival}
use expose.Server.Connecting.{handle_socket}
use expose.Server.Connecting.Acks.{is_ack, handle_socket-acks}
use expose.Client.Multi.{Standard, MultiTunnelManager}
use expose.Client.Multi.Opening.{Stream, open_tunnels}
use expose.Client.Multi.Opened.{acks, open_tunnels-acks}

-- Over one socket this server never opens two tunnels: when the acknowledgements that the client
-- reads are those that the socket's handler sent, whatever the client sent to it, the opening of two
-- or more tunnels never succeeds.
pub open_tunnels-handle_socket :
    {L : Type 0} (b : Bincode) (std : Standard) (v shown : Text)
    (queue : TunnelConfig → Option Text) (cfgs : List TunnelConfig) (m : MultiTunnelManager)
    (stream : Stream) (writes : TcpRegistry.SocketWrites) (o : Outside L) (arrivals : List Arrival)
    (s : AppState L)
    → 2 ≤ length cfgs
    → acks b std stream ≤ count is_ack (handle_socket b writes o shown arrivals s).1
    → ¬ ((open_tunnels b std v queue cfgs m stream).0 ≡ ok tt)
open_tunnels-handle_socket b std v shown queue cfgs m stream writes o arrivals s two le h = omega (
  arith,
  open_tunnels-acks b std v queue cfgs m stream h,
  handle_socket-acks b writes o shown arrivals s,
)
