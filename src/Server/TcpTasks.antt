-- ===== src/Server/TcpTasks.antt =====
-- expose-server/src/tcp_proxy.rs: `handle_connection` and `read_loop`, the tasks of a public TCP
-- connection. What the socket gives to the reads is a list; a new connection's id is a parameter.
-- A read task that is aborted does nothing more, and is left out.
use expose.Prelude.{ℕ, Bool, true, false, List, [], ◌∷◌, ok, err, wrapping_add}
use expose.Prelude.Assoc.{nat_eq, insert}
use expose.Prelude.Text.{Text, Bytes}
use expose.Common.Error.{Fallible}
use expose.Common.Message.{Message, TcpCloseReason}
use expose.Server.Proxy.Streaming.{Channel, send}

-- `read` into a buffer of 64 KiB: the end, some bytes, or an error.
pub data Read : Type 0 where
  ended : Read
  got : Bytes → Read
  broken : Text → Read

-- The channel afterwards, and whether the task takes the connection out of the table.
abbrev pub Relayed : Type 0
Relayed = Channel × Bool

abbrev pub after_data : Fallible (Unit {0}) × Channel → (Channel → Relayed) → Relayed
after_data (ok _, c) k = k c
after_data (err e, c) k = (c, false)

-- No more reads: the task still waits.
unfoldable pub tcp_read_loop : (connection_id sequence : ℕ) → List Read → Channel → Relayed
tcp_read_loop id sequence [] c = (c, false)
tcp_read_loop id sequence (ended ∷ reads) c =
    ((send (Message.tcp_close id TcpCloseReason.normal) c).1, true)
tcp_read_loop id sequence (got bytes ∷ reads) c =
    after_data (send (Message.tcp_data id bytes sequence) c)
      (λ c'. tcp_read_loop id (wrapping_add sequence 1) reads c')
tcp_read_loop id sequence (broken e ∷ reads) c =
    ((send (Message.tcp_close id (TcpCloseReason.error e)) c).1, true)

-- `handle_connection`: the client is told, and then the connection stands in the tunnel's table.
abbrev pub after_notice :
    ℕ → List (ℕ × Bytes) → Fallible (Unit {0}) × Channel → Fallible (List (ℕ × Bytes)) × Channel
after_notice id connections (err e, c) = (err e, c)
after_notice id connections (ok _, c) = (ok (insert id [] connections), c)

unfoldable pub handle_connection :
    (connection_id : ℕ) (addr : Text)
    → List (ℕ × Bytes)
    → Channel
    → Fallible (List (ℕ × Bytes)) × Channel
handle_connection id addr connections c =
    after_notice id connections (send (Message.tcp_connect id addr) c)
