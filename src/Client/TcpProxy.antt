-- ===== src/Client/TcpProxy.antt =====
-- expose-client/src/tcp_proxy.rs: `TcpLocalProxy`, the local ends of tunnelled TCP connections. A
-- connection keeps what was written to it. Whether a write to the socket works is a parameter: it
-- answers with the error, if there is one.
use expose.Prelude.{ℕ, ◌++◌, true, false, List, [], Option, none, some, Result, ok, err}
use expose.Prelude.Assoc.{nat_eq, lookup, insert, remove}
use expose.Prelude.Text.{Text, Bytes, lit, show}
use expose.Common.Error.{ExposeError, Fallible}
use expose.Common.Message.{Message}

pub record TcpLocalProxy : Type 0 where
  pub host : Text
  pub port : ℕ
  pub connections : List (ℕ × Bytes)

-- The error of a write of some bytes to a connection, if it fails.
abbrev pub SocketWrites : Type 0
SocketWrites = ℕ → Bytes → Option Text

unfoldable pub new_tcp_proxy : Text → ℕ → TcpLocalProxy
new_tcp_proxy host port = record { host = host; port = port; connections = [] }

-- `handle_connect`, with the outcome of the connection attempt: the acknowledgement that is sent.
unfoldable pub handle_connect : ℕ → Result Text (Unit {0}) → TcpLocalProxy → Message × TcpLocalProxy
handle_connect id (ok _) p =
    (Message.tcp_connect_ack id true none, record p { connections = insert id [] p.connections })
handle_connect id (err e) p = (Message.tcp_connect_ack id false (some e), p)

unfoldable pub handle_data : SocketWrites → ℕ → Bytes → TcpLocalProxy → Fallible TcpLocalProxy
handle_data writes id bytes p = elim (lookup id p.connections) [
  | none ↦ err (ExposeError.invalid_message (lit "TCP data for unknown connection " ++ show id))
  | some written ↦ elim (writes id bytes) [
    | some e ↦ err (ExposeError.network e)
    | none ↦ ok (record p { connections = insert id (written ++ bytes) p.connections })
  ]
]

unfoldable pub handle_close : ℕ → TcpLocalProxy → TcpLocalProxy
handle_close id p = record p { connections = remove id p.connections }
