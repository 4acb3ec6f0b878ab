-- ===== src/Client/Agreement.antt =====
-- expose-client/src/tunnel.rs and expose-server/src/server.rs: the two ends of a handshake.
use expose.Prelude.{ℕ, ◌≡◌, refl, subst, ◌∙◌, ap, List, [], ◌∷◌, Option, none, some, ok, All, true}
use expose.Prelude.Text.{Text, Bytes, text_eq}
use expose.Common.Types.{TunnelConfig}
use expose.Common.Message.{Message, ConnectResponse}
use expose.Common.Codec.{Bincode, RoundTrips, encode, decode-encode}
use expose.Client.Session.{WsMessage}
use expose.Client.Delivery.{Encoded}
use expose.Client.Handshake.{
  Incoming, client_request, heard, acked, IsQuiet, pongs, reads, perform_handshake,
  perform_handshake-acked,
}
use expose.Server.ActiveTunnel.{ActiveTunnel}
use expose.Server.Tunnels.{get}
use expose.Server.Socket.{Arrival}
use expose.Server.Handshake.{AppState, Outside, handshake}
use expose.Server.Handshake.Opening.{handshake-Opened}
use expose.Server.Connecting.{wait_for_connect}
use expose.Server.Keys.{validate_api_key}

wait_for_connect-sent :
    (b : Bincode) (v shown : Text) (cfg : TunnelConfig) (x : Bytes) (later : List Arrival)
    → RoundTrips b
    → encode b (Message.connect (client_request v cfg)) ≡ ok x
    → wait_for_connect b shown (Arrival.binary x ∷ later) ≡ (ok (client_request v cfg), [], later)
unfolding wait_for_connect
wait_for_connect-sent b v shown cfg x later rt e =
    rw (decode-encode b (Message.connect (client_request v cfg)) x rt e) refl

heard-acked :
    (b : Bincode) (ack : ConnectResponse) (y : Bytes)
    → RoundTrips b
    → encode b (Message.connect_ack ack) ≡ ok y
    → heard b (WsMessage.binary y) ≡ acked ack
unfolding heard
heard-acked b ack y rt e = rw (decode-encode b (Message.connect_ack ack) y rt e) refl

-- Both ends of an opened tunnel agree. The server reads the client's request as it was sent, whatever
-- comes after it. When its handshake then opens a tunnel, the key of the client's configuration was
-- accepted, and the client, which reads the server's message after frames that it may read over,
-- answers each ping among them, ends its handshake with an acknowledgement that has the id and the
-- name of the tunnel that the server registered, and leaves the rest of the stream unread. Every
-- message has an encoding that bincode reads back, and the client's sends work.
pub handshakes-agree :
    {L : Type 0} (b : Bincode) (v shown : Text) (cfg : TunnelConfig) (x y : Bytes)
    (later : List Arrival) (o : Outside L) (s s' : AppState L) (t : ActiveTunnel L)
    (messages : List Message) (fails : ℕ → Option Text) (before : List WsMessage) (rest : Incoming)
    → RoundTrips b
    → ((n : ℕ) → fails n ≡ none)
    → All (IsQuiet b) before
    → encode b (Message.connect (client_request v cfg)) ≡ ok x
    → handshake o (client_request v cfg) s ≡ (ok t, messages, s')
    → Encoded b messages (y ∷ [])
    → (wait_for_connect b shown (Arrival.binary x ∷ later) ≡ (ok (client_request v cfg), [], later))
      × (validate_api_key o.crypto s.config.api_keys cfg.api_key ≡ true)
      × ((ack : ConnectResponse) × (perform_handshake b fails
              (client_request v cfg)
              (reads before (ok (WsMessage.binary y) ∷ rest))
            ≡ (ok ack, WsMessage.binary x ∷ pongs b before, rest))
          × (ack.tunnel_id ≡ t.id)
          × (ack.assigned_subdomain ≡ t.subdomain)
          × (get s'.manager ack.assigned_subdomain ≡ some t))
unfolding client_request
handshakes-agree b v shown cfg x y later o s s' t messages fails before rest rt works quiet e h m =
    let (_, key, _, _, _, found, (ack, sent, named, same_id)) =
      handshake-Opened o (client_request v cfg) s s' t messages h in
    let read : encode b (Message.connect_ack ack) ≡ ok y =
      (subst (λ ms. Encoded b ms (y ∷ [])) sent m).0 in
    (
      wait_for_connect-sent b v shown cfg x later rt e,
      key,
      (
        ack,
        perform_handshake-acked b fails works (client_request v cfg) x before (WsMessage.binary y)
            ack rest e quiet (heard-acked b ack y rt read),
        same_id,
        named,
        ap (get s'.manager) named ∙ found,
      ),
    )
