-- ===== src/Server/TcpRegistry.antt =====
-- expose-server/src/tcp_proxy.rs: `TcpTunnelRegistry`, the public TCP connections of each tunnel. A
-- connection keeps what was written to it; whether a write works, and the port of a new listener,
-- are parameters. The accept loop is left out; the read task of a connection is in TcpTasks.
use expose.Prelude.{ℕ, ◌++◌, Bool, true, false, List, [], Option, none, some, Result, ok, err}
use expose.Prelude.Assoc.{nat_eq, lookup, insert, remove}
use expose.Prelude.Text.{Text, Bytes, lit, show}
use expose.Common.Error.{ExposeError, Fallible}

pub record TcpTunnelRegistry : Type 0 where
  pub tunnels : List (ℕ × List (ℕ × Bytes))

-- The error of a write of some bytes to a connection, if it fails.
abbrev pub SocketWrites : Type 0
SocketWrites = ℕ → Bytes → Option Text

-- `register_tunnel`, with the outcome of the listener: its port or an error.
unfoldable pub register_listener :
    Result Text ℕ → ℕ → TcpTunnelRegistry → Fallible ℕ × TcpTunnelRegistry
register_listener (err e) tunnel_id r = (err (ExposeError.network e), r)
register_listener (ok port) tunnel_id r =
    (ok port, record { tunnels = insert tunnel_id [] r.tunnels })

unfoldable pub remove_listener : ℕ → TcpTunnelRegistry → TcpTunnelRegistry
remove_listener tunnel_id r = record { tunnels = remove tunnel_id r.tunnels }

unfoldable pub handle_client_data :
    SocketWrites
    → (tunnel_id connection_id : ℕ) → Bytes
    → TcpTunnelRegistry
    → Fallible TcpTunnelRegistry
handle_client_data writes tunnel_id connection_id bytes r = elim (lookup tunnel_id r.tunnels) [
  | none ↦ err (ExposeError.tunnel_not_found (show tunnel_id))
  | some connections ↦ elim (lookup connection_id connections) [
    | none ↦ err (ExposeError.tunnel_not_found (lit "tcp-conn-" ++ show connection_id))
    | some written ↦ elim (writes connection_id bytes) [
      | some e ↦ err (ExposeError.network e)
      | none ↦ ok (record {
        tunnels = insert tunnel_id (insert connection_id (written ++ bytes) connections) r.tunnels;
      })
    ]
  ]
]

unfoldable pub handle_client_close :
    (tunnel_id connection_id : ℕ) → TcpTunnelRegistry → TcpTunnelRegistry
handle_client_close tunnel_id connection_id r = elim (lookup tunnel_id r.tunnels) [
  | none ↦ r
  | some connections ↦ record {
    tunnels = insert tunnel_id (remove connection_id connections) r.tunnels;
  }
]

unfoldable pub handle_client_ack :
    (tunnel_id connection_id : ℕ) → (success : Bool) → TcpTunnelRegistry → TcpTunnelRegistry
unfolding handle_client_close
handle_client_ack tunnel_id connection_id true r = r
handle_client_ack tunnel_id connection_id false r = handle_client_close tunnel_id connection_id r
