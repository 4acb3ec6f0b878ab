-- ===== src/Client/Handshake.antt =====
-- expose-client/src/tunnel.rs: `perform_handshake`, the client's request and its wait for the
-- acknowledgement. What the socket gives is a list of frames and failed reads; `fails` gives the
-- error of each send, by its number, if it fails.
use expose.Prelude.{
  ℕ, suc, ◌++◌, ◌≡◌, refl, List, [], ◌∷◌, Option, none, some, Result, ok, err, All, if◌then◌else◌,
  is_empty,
}
use expose.Prelude.Text.{Text, Bytes, lit}
use expose.Common.Types.{TunnelConfig, local_endpoint}
use expose.Common.Error.{ExposeError, ErrorCode, Fallible}
use expose.Common.Message.{Message, ConnectRequest, ConnectResponse}
use expose.Common.Version.{protocol_version}
use expose.Common.Codec.{Bincode, encode, decode}
use expose.Client.Version.{version_mismatch_error}
use expose.Client.Session.{WsMessage, protocol_error_from_message}

abbrev pub Incoming : Type 0
Incoming = List (Result Text WsMessage)

-- The request of `run_single_session`; the version of the client is the build's.
unfoldable pub client_request : Text → TunnelConfig → ConnectRequest
client_request client_version config = record {
  protocol_version = protocol_version;
  api_key = config.api_key;
  desired_subdomain = config.subdomain;
  tunnel_protocol = config.protocol;
  client_version = client_version;
  metadata = some (lit "local=" ++ local_endpoint config);
}

-- What a frame means during the handshake.
pub data Heard : Type 0 where
  acked : ConnectResponse → Heard
  rejected : ExposeError → Heard
  pinged : Bytes → Heard
  ignored : Heard

abbrev heard_message : Fallible Message → Heard
heard_message (ok (Message.connect_ack ack)) = acked ack
heard_message (ok (Message.error ErrorCode.protocol_mismatch message)) =
    rejected (version_mismatch_error message)
heard_message (ok (Message.error code message)) =
    rejected (protocol_error_from_message code message)
heard_message (ok _) = ignored
heard_message (err e) = rejected e

abbrev close_reason : Option Text → Text
close_reason none = lit "no reason provided"
close_reason (some reason) = if is_empty reason then lit "no reason provided" else reason

unfoldable pub heard : Bincode → WsMessage → Heard
heard b (WsMessage.binary payload) = heard_message (decode b payload)
heard b (WsMessage.ping payload) = pinged payload
heard b (WsMessage.close reason) = rejected (
    ExposeError.network (
      lit "Server closed connection during handshake: "
      ++ (close_reason reason ++ lit ". Verify your API key and requested subdomain.")))
heard b _ = ignored

-- The result, the frames that were sent, and what is left to read.
abbrev pub Handshaken : Type 0
Handshaken = Fallible ConnectResponse × List WsMessage × Incoming

abbrev pub sent_first : WsMessage → Handshaken → Handshaken
sent_first frame h = (h.0, frame ∷ h.1, h.2)

abbrev pub refused : Text → Incoming → Handshaken
refused context rest = (err (ExposeError.network context), [], rest)

abbrev after_pong : Option Text → Bytes → Incoming → Handshaken → Handshaken
after_pong (some e) payload rest later =
    refused (lit "Failed to respond to WebSocket ping: " ++ e) rest
after_pong none payload rest later = sent_first (WsMessage.pong payload) later

-- `same` goes on without a send, `more` after one.
abbrev after_heard : Heard → Option Text → Incoming → (same more : Handshaken) → Handshaken
after_heard (acked ack) failure rest same more = (ok ack, [], rest)
after_heard (rejected e) failure rest same more = (err e, [], rest)
after_heard (pinged payload) failure rest same more = after_pong failure payload rest more
after_heard ignored failure rest same more = same

unfoldable pub await_ack : Bincode → (ℕ → Option Text) → ℕ → Incoming → Handshaken
unfolding heard
await_ack b fails n [] =
    refused (lit "Connection closed before the server acknowledged the tunnel") []
await_ack b fails n (err e ∷ rest) = refused (lit "Failed to read handshake response: " ++ e) rest
await_ack b fails n (ok frame ∷ rest) =
    let same = await_ack b fails n rest in
    let more = await_ack b fails (suc n) rest in
    after_heard (heard b frame) (fails n) rest same more

abbrev after_request : Option Text → Bytes → Incoming → Handshaken → Handshaken
after_request (some e) bytes incoming later =
    refused (lit "Failed to send handshake request: " ++ e) incoming
after_request none bytes incoming later = sent_first (WsMessage.binary bytes) later

abbrev after_encode : (ℕ → Option Text) → Incoming → Fallible Bytes → Handshaken → Handshaken
after_encode fails incoming (err e) later = (err e, [], incoming)
after_encode fails incoming (ok bytes) later = after_request (fails 0) bytes incoming later

unfoldable pub perform_handshake :
    Bincode → (ℕ → Option Text) → ConnectRequest → Incoming → Handshaken
unfolding await_ack
perform_handshake b fails request incoming =
    after_encode fails incoming (encode b (Message.connect request)) (await_ack b fails 1 incoming)

-- Frames that the client reads over, with what it answers to them.
abbrev IsQuietHeard : Heard → Type 0
IsQuietHeard (acked ack) = ⊥
IsQuietHeard (rejected e) = ⊥
IsQuietHeard _ = Unit

abbrev pub IsQuiet : Bincode → WsMessage → Type 0
IsQuiet b frame = IsQuietHeard (heard b frame)

abbrev pong_for : Heard → List WsMessage → List WsMessage
pong_for (pinged payload) frames = WsMessage.pong payload ∷ frames
pong_for _ frames = frames

abbrev pub pongs : Bincode → List WsMessage → List WsMessage
pongs b [] = []
pongs b (f ∷ fs) = pong_for (heard b f) (pongs b fs)

abbrev pub reads : List WsMessage → Incoming → Incoming
reads [] rest = rest
reads (f ∷ fs) rest = ok f ∷ reads fs rest

after_heard-quiet :
    (h : Heard) (rest later : Incoming) (same more : Handshaken) (ack : ConnectResponse)
    (frames : List WsMessage)
    → IsQuietHeard h
    → same ≡ (ok ack, frames, later)
    → more ≡ (ok ack, frames, later)
    → after_heard h none rest same more ≡ (ok ack, pong_for h frames, later)
after_heard-quiet (acked a) rest later same more ack frames q s m = absurd q
after_heard-quiet (rejected e) rest later same more ack frames q s m = absurd q
after_heard-quiet (pinged payload) rest later same more ack frames q s m = rw m refl
after_heard-quiet ignored rest later same more ack frames q s m = s

module _ (b : Bincode) (fails : ℕ → Option Text) (works : (n : ℕ) → fails n ≡ none) where
  await_ack-quiet :
      (before : List WsMessage) (frame : WsMessage) (ack : ConnectResponse) (rest : Incoming)
      (n : ℕ)
      → All (IsQuiet b) before
      → heard b frame ≡ acked ack
      → await_ack b fails n (reads before (ok frame ∷ rest)) ≡ (ok ack, pongs b before, rest)
  unfolding await_ack
  await_ack-quiet [] frame ack rest n q h = rw h refl
  await_ack-quiet (f ∷ fs) frame ack rest n (q, qs) h = rw (works n) (
      after_heard-quiet (heard b f) (reads fs (ok frame ∷ rest)) rest
        (await_ack b fails n (reads fs (ok frame ∷ rest)))
        (await_ack b fails (suc n) (reads fs (ok frame ∷ rest))) ack (pongs b fs) q
        (await_ack-quiet fs frame ack rest n qs h) (await_ack-quiet fs frame ack rest (suc n) qs h))

  -- The request goes out first, every ping is answered, and the first acknowledgement ends it.
  pub perform_handshake-acked :
      (request : ConnectRequest) (x : Bytes) (before : List WsMessage) (frame : WsMessage)
      (ack : ConnectResponse) (rest : Incoming)
      → encode b (Message.connect request) ≡ ok x
      → All (IsQuiet b) before
      → heard b frame ≡ acked ack
      → perform_handshake b fails request (reads before (ok frame ∷ rest))
        ≡ (ok ack, WsMessage.binary x ∷ pongs b before, rest)
  unfolding perform_handshake
  perform_handshake-acked request x before frame ack rest e q h =
      rw (e, works 0, await_ack-quiet before frame ack rest 1 q h) refl
