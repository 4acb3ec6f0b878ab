-- ===== src/Server/Connecting.antt =====
-- expose-server/src/server.rs: `wait_for_connect`, and the whole of `handle_socket`: the wait, the
-- handshake and the loop over what the client sends. The text that shows a close frame is a
-- parameter.
pub mod Acks
use expose.Prelude.{◌++◌, List, [], ◌∷◌, Option, some, ok, err}
use expose.Prelude.Text.{Text, Bytes, lit, text_eq}
use expose.Common.Error.{ExposeError, Fallible}
use expose.Common.Message.{Message, ConnectRequest}
use expose.Common.Codec.{Bincode, decode}
use expose.Server.Pending.{Deliveries}
use expose.Server.TcpRegistry.{SocketWrites}
use expose.Server.Handshake.{AppState, WriterEnd, Outside, Shaken, handshake}
use expose.Server.Socket.{Arrival, serve}

-- The request, the pongs that were sent, and what is left to read.
abbrev pub Connected : Type 0
Connected = Fallible ConnectRequest × List Bytes × List Arrival

abbrev ponged : Bytes → Connected → Connected
ponged payload c = (c.0, payload ∷ c.1, c.2)

abbrev after_message : Fallible Message → List Arrival → Connected → Connected
after_message (ok (Message.connect request)) rest later = (ok request, [], rest)
after_message (ok _) rest later = later
after_message (err e) rest later = (err e, [], rest)

unfoldable pub wait_for_connect : Bincode → (shown_close : Text) → List Arrival → Connected
wait_for_connect b shown_close [] =
    (err (ExposeError.network (lit "client disconnected before sending Connect")), [], [])
wait_for_connect b shown_close (Arrival.binary bytes ∷ rest) =
    let later = wait_for_connect b shown_close rest in after_message (decode b bytes) rest later
wait_for_connect b shown_close (Arrival.ping payload ∷ rest) =
    ponged payload (wait_for_connect b shown_close rest)
wait_for_connect b shown_close (Arrival.close ∷ rest) =
    (err (ExposeError.network (lit "client closed during handshake: " ++ shown_close)), [], rest)
wait_for_connect b shown_close (Arrival.other ∷ rest) = wait_for_connect b shown_close rest
wait_for_connect b shown_close (Arrival.unreadable e ∷ rest) =
    (err (ExposeError.network e), [], rest)

-- The result, none while it waits for the writer, the messages of the handshake, what waiters of the tunnel got, and the state.
abbrev pub Handled : Type 0 → Type 0
Handled L = Option (Fallible (Unit {0})) × List Message × Deliveries × AppState L

module _ {L : Type 0} (b : Bincode) (writes : SocketWrites) where
  abbrev pub after_handshake : WriterEnd → List Arrival → Shaken L → Handled L
  after_handshake writer rest (err e, messages, s) = (some (err e), messages, [], s)
  after_handshake writer rest (ok t, messages, s) =
      let (result, out, s') = serve b writes t writer t.subdomain rest s in
      (result, messages, out, s')

  abbrev pub after_connect : Outside L → AppState L → Connected → Handled L
  after_connect o s (err e, pongs, rest) = (some (err e), [], [], s)
  after_connect o s (ok request, pongs, rest) =
      after_handshake o.writer rest (handshake o request s)

  unfoldable pub handle_socket :
      Outside L → (shown_close : Text) → List Arrival → AppState L → Handled L
  unfolding wait_for_connect
  handle_socket o shown_close arrivals s =
      after_connect o s (wait_for_connect b shown_close arrivals)
