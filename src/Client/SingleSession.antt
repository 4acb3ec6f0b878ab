-- ===== src/Client/SingleSession.antt =====
-- expose-client/src/tunnel.rs: `run_single_session`, a session of one tunnel from the connection to
-- its end, with the task that writes to the socket. Frames of the tasks that run beside the loop
-- reach the writer too, so what it gets is an input of its own. It is a list: the session
-- returns when each task that holds a sender, the ping task included, has dropped it or a write has
-- failed.
use expose.Prelude.{
  ℕ, suc, ◌++◌, true, false, Bool, ◌&&◌, List, [], ◌∷◌, map, Option, none, some, Result, ok, err,
}
use expose.Prelude.Text.{Text, Bytes, lit}
use expose.Common.Types.{TunnelConfig}
use expose.Common.Error.{ExposeError, ConfigError, Fallible}
use expose.Common.Message.{Message}
use expose.Common.Codec.{Bincode, encode}
use expose.Client.TcpProxy.{SocketWrites}
use expose.Client.Session.{WsMessage, open_session}
use expose.Client.Loop.{Event, received, unreadable, Termination, shutdown, failed, session_loop}
use expose.Client.Handshake.{Incoming, Handshaken, client_request, perform_handshake}
use expose.Client.Run.{SessionResult, Round}

pub data Outgoing : Type 0 where
  protocol : Message → Outgoing
  raw : WsMessage → Outgoing

-- How the writer ends, and the frames that it wrote.
abbrev pub Written : Type 0
Written = Fallible (Unit {0}) × List WsMessage

abbrev pub and_then : WsMessage → Written → Written
and_then frame w = (w.0, frame ∷ w.1)

abbrev after_write : Text → Option Text → WsMessage → Written → Written
after_write context (some e) frame later = (err (ExposeError.network (context ++ e)), [])
after_write context none frame later = and_then frame later

abbrev after_encoding : Fallible Bytes → Option Text → Written → Written
after_encoding (err e) failure later = (err e, [])
after_encoding (ok bytes) failure later =
    after_write (lit "WebSocket send error: ") failure (WsMessage.binary bytes) later

-- The close frame is tried at the end, whether it can be written or not.
abbrev closing : Option Text → List WsMessage
closing none = WsMessage.close none ∷ []
closing (some e) = []

unfoldable pub writer_task : Bincode → (ℕ → Option Text) → ℕ → List Outgoing → Written
writer_task b fails n [] = (ok tt, closing (fails n))
writer_task b fails n (protocol m ∷ queue) =
    let later = writer_task b fails (suc n) queue in after_encoding (encode b m) (fails n) later
writer_task b fails n (raw frame ∷ queue) =
    let later = writer_task b fails (suc n) queue in
    after_write (lit "WebSocket control send error: ") (fails n) frame later

-- What a session takes from outside: the address as it parses, whether the connection is made, the
-- sends of the handshake, what is read, what happens afterwards, what reaches the
-- writer, and whether its task was joined when it ended, none while it has not.
pub record SingleSession : Type 0 where
  pub parsed : Result Text Text
  pub connection : Result Text (Unit {0})
  pub sends : ℕ → Option Text
  pub incoming : Incoming
  pub events : List Event
  pub queue : List Outgoing
  pub writes : ℕ → Option Text
  pub joined : Option (Result Text (Unit {0}))

abbrev pub as_event : Result Text WsMessage → Event
as_event (ok frame) = received frame
as_event (err e) = unreadable e

abbrev pub after_writer : Fallible (Unit {0}) → Termination → SessionResult
after_writer (err e) t = SessionResult.reconnect e true
after_writer (ok _) shutdown = SessionResult.shutdown true
after_writer (ok _) (failed e) = SessionResult.reconnect e true

abbrev pub after_join :
    Option (Result Text (Unit {0})) → Fallible (Unit {0}) → Termination → Option SessionResult
after_join none writer t = none
after_join (some (err e)) writer t =
    some (SessionResult.reconnect (ExposeError.network (lit "Writer task failed: " ++ e)) true)
after_join (some (ok _)) writer t = some (after_writer writer t)

-- The result of a session, none while its loop or its writer runs.
abbrev pub after_loop :
    Option (Result Text (Unit {0}))
    → Fallible (Unit {0})
    → Option Termination
    → Option SessionResult
after_loop joined writer none = none
after_loop joined writer (some t) = after_join joined writer t

module _ (b : Bincode) (socket : SocketWrites) (client_version : Text) (cfg : TunnelConfig) where
  abbrev pub after_shake : SingleSession → Handshaken → Option SessionResult
  after_shake s (err e, sent, rest) = some (SessionResult.reconnect e false)
  after_shake s (ok ack, sent, rest) =
      after_loop s.joined (writer_task b s.writes 0 s.queue).0
        (session_loop b socket (map as_event rest ++ s.events)
          (open_session ack.tunnel_protocol cfg.local_host cfg.local_port)).0

  abbrev unreachable : Text → Text → ExposeError
  unreachable url e = ExposeError.network (
      lit "Failed to connect to " ++ (url ++ (lit ": " ++ (e ++ lit ". Is the server reachable?"))))

  abbrev invalid_url : Text → ExposeError
  invalid_url e = ExposeError.config (ConfigError.validation (lit "Invalid server URL: " ++ e))

  abbrev pub after_connecting : SingleSession → Text → Result Text (Unit {0}) → Option SessionResult
  after_connecting s url (err e) = some (SessionResult.reconnect (unreachable url e) false)
  after_connecting s url (ok _) =
      after_shake s (perform_handshake b s.sends (client_request client_version cfg) s.incoming)

  abbrev pub after_url : SingleSession → Result Text Text → Option SessionResult
  after_url s (err e) = some (SessionResult.reconnect (invalid_url e) false)
  after_url s (ok url) = after_connecting s url s.connection

  unfoldable pub run_single_session : SingleSession → Option SessionResult
  unfolding writer_task
  run_single_session s = after_url s s.parsed

  -- The session's handshake was acknowledged.
  abbrev is_ok : {A : Type 0} → {E : Type 0} → Result E A → Bool
  is_ok (ok a) = true
  is_ok (err e) = false

  abbrev pub acknowledged : SingleSession → Bool
  acknowledged s =
      is_ok s.parsed
      && is_ok s.connection
      && is_ok (perform_handshake b s.sends (client_request client_version cfg) s.incoming).0

  abbrev pub round_of : SingleSession → Round
  round_of s = record {
    cancelled_before = false;
    result = run_single_session s;
    cancelled_after = false;
    cancelled_wait = false;
  }
