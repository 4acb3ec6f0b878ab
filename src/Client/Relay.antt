-- ===== src/Client/Relay.antt =====
-- expose-server/src/tcp_proxy.rs and expose-client/src/tcp_proxy.rs: the bytes of a public TCP
-- connection on their way to the local service.
use expose.Prelude.{
  ℕ, ◌++◌, ◌≡◌, refl, ◌∙◌, ap, List, [], ◌∷◌, Option, none, some, arith, if◌then◌else◌,
  append_assoc, append-nil, wrapping_add,
}
use expose.Prelude.Assoc.{nat_eq, ◌==◌, lookup, insert, lookup-insert, lookup-insert_self}
use expose.Prelude.Text.{Bytes}
use expose.Common.Message.{Message, TcpCloseReason}
use expose.Common.Codec.{Bincode, RoundTrips}
use expose.Client.LocalProxy.{LocalProxy}
use expose.Client.TcpProxy.{SocketWrites, TcpLocalProxy}
use expose.Client.Loop.{Event, session_loop}
use expose.Client.Delivery.{Encoded, frames_then, loop_step}
use expose.Client.EarlyData.{with_tcp, data_known}
use expose.Server.Proxy.Chunks.{concat}
use expose.Server.Proxy.Streaming.{Channel}
use expose.Server.Proxy.Transfer.{Open, sent_too, send-Open, sent_too-append}
use expose.Server.TcpTasks.{Read, ended, got, tcp_read_loop}

-- The reads of a connection that ends, and their bytes as messages.
abbrev pub reads_of : List Bytes → List Read
reads_of [] = ended ∷ []
reads_of (bytes ∷ rest) = got bytes ∷ reads_of rest

abbrev pub data_messages : (id sequence : ℕ) → List Bytes → List Message
data_messages id sequence [] = []
data_messages id sequence (bytes ∷ rest) =
    Message.tcp_data id bytes sequence ∷ data_messages id (wrapping_add sequence 1) rest

read_loop-Open :
    (id sequence : ℕ) (bs : List Bytes) (c : Channel)
    → Open c
    → tcp_read_loop id sequence (reads_of bs) c ≡ (
      sent_too
          (data_messages id sequence bs ++ (Message.tcp_close id TcpCloseReason.normal ∷ []))
          c,
      mathlib.Core.Bool.true,
    )
unfolding tcp_read_loop
read_loop-Open id sequence [] c o =
    rw (send-Open (Message.tcp_close id TcpCloseReason.normal) c o) refl
read_loop-Open id sequence (bytes ∷ rest) c o =
    rw
      (
        send-Open (Message.tcp_data id bytes sequence) c o,
        read_loop-Open id (wrapping_add sequence 1) rest
            (sent_too (Message.tcp_data id bytes sequence ∷ []) c) o,
        sent_too-append (Message.tcp_data id bytes sequence ∷ [])
            (data_messages id (wrapping_add sequence 1) rest
              ++ (Message.tcp_close id TcpCloseReason.normal ∷ []))
            c,
      )
      refl

-- The loop goes on with these bytes written to the connection, and the others as they were.
abbrev pub Writes :
    Bincode
    → SocketWrites
    → List Bytes
    → List Event
    → ℕ
    → Bytes
    → TcpLocalProxy
    → Option LocalProxy
    → Type 0
Writes b writes xs rest id written p h =
    (p' : TcpLocalProxy) × (session_loop b writes (frames_then xs rest) (with_tcp p h)
      ≡ session_loop b writes rest (with_tcp p' h))
    × ((j : ℕ)
        → lookup j p'.connections ≡ (if id == j then some written else lookup j p.connections))

data-Writes :
    (b : Bincode) (writes : SocketWrites) (id sequence : ℕ) (bs xs : List Bytes) (rest : List Event)
    (w : Bytes) (p : TcpLocalProxy) (h : Option LocalProxy)
    → RoundTrips b
    → ((bytes : Bytes) → writes id bytes ≡ none)
    → Encoded b (data_messages id sequence bs) xs
    → lookup id p.connections ≡ some w
    → Writes b writes xs rest id (w ++ concat bs) p h
data-Writes b writes id sequence [] [] rest w p h rt works e l =
    (p, refl, λ j. rw (append-nil w) (ground (arith, nat_eq.eqb_iff id j, l)))
data-Writes b writes id sequence [] (x ∷ xs) rest w p h rt works e l = absurd e
data-Writes b writes id sequence (y ∷ bs) [] rest w p h rt works e l = absurd e
data-Writes b writes id sequence (y ∷ bs) (x ∷ xs) rest w p h rt works e l =
    let q : TcpLocalProxy = record p { connections = insert id (w ++ y) p.connections } in
    let (p', d, k) =
      data-Writes b writes id (wrapping_add sequence 1) bs xs rest (w ++ y) q h rt works e.1
        (lookup-insert_self id (w ++ y) p.connections) in
    (
      p',
      loop_step b writes (Message.tcp_data id y sequence) x (frames_then xs rest) (with_tcp p h)
            (with_tcp q h) [] rt e.0 (data_known writes id sequence y w p h l (works y))
          ∙ d,
      λ j.
          rw (← append_assoc w y (concat bs))
            (ground (arith, k j, lookup-insert id j (w ++ y) p.connections)),
    )

-- What a public TCP connection sends arrives at the local service whole and in order: when the
-- tunnel's channel stays open, the server's task sends the bytes of every read and then a close, and
-- the client's loop, fed with the frames of the data, writes exactly these bytes, after what was
-- written before, to the connection's local end, leaves the other connections alone and goes on with
-- the events after them. The local connection is open and takes every write, and every message has
-- an encoding that bincode reads back.
pub tcp_read_loop-session_loop :
    (id : ℕ) (bs : List Bytes) (c : Channel) (b : Bincode) (writes : SocketWrites) (xs : List Bytes)
    (rest : List Event) (w : Bytes) (p : TcpLocalProxy) (h : Option LocalProxy)
    → Open c
    → RoundTrips b
    → ((bytes : Bytes) → writes id bytes ≡ none)
    → lookup id p.connections ≡ some w
    → Encoded b (data_messages id 0 bs) xs
    → ((tcp_read_loop id 0 (reads_of bs) c).0.sent
        ≡ c.sent ++ (data_messages id 0 bs ++ (Message.tcp_close id TcpCloseReason.normal ∷ [])))
      × Writes b writes xs rest id (w ++ concat bs) p h
tcp_read_loop-session_loop id bs c b writes xs rest w p h o rt works l e = (
  ap (λ r. r.0.sent) (read_loop-Open id 0 bs c o),
  data-Writes b writes id 0 bs xs rest w p h rt works e l,
)
