-- ===== src/Server/Proxy/Streaming.antt =====
-- expose-server/src/proxy/streaming.rs: `RequestStreamer`. The channel to the tunnel's writer task
-- keeps the messages that it took, oldest first, and says which send it still takes: it may close
-- at any time. Waiting for room in the channel is left out.
use expose.Prelude.{
  ℕ, ◌+◌, ◌%◌, ◌^◌, ◌++◌, Bool, List, [], ◌∷◌, Option, none, some, ok, err, if◌then◌else◌, ltb,
  length, min,
}
use expose.Prelude.Text.{Text, Bytes, lit}
use expose.Common.Error.{ExposeError, Fallible}
use expose.Common.Message.{Message, Headers}
use expose.Server.Proxy.Body.{Frame, chunk, trailers, failed}
use expose.Server.Proxy.Chunks.{chunks}

pub record Channel : Type 0 where
  pub sent : List Message
  pub accepts : ℕ → Bool

-- `ActiveTunnel::send`.
unfoldable pub send : Message → Channel → Fallible (Unit {0}) × Channel
send message c =
    if c.accepts (length c.sent)
    then (ok tt, record c { sent = c.sent ++ (message ∷ []) })
    else (err (ExposeError.tunnel_disconnected (some (lit "tunnel writer closed"))), c)

pub record StreamingConfig : Type 0 where
  pub enabled : Bool
  pub threshold_bytes : ℕ
  pub chunk_size_bytes : ℕ
  pub max_body_bytes : ℕ

-- `usize::saturating_add` and `u32::wrapping_add`.
unfoldable pub saturating_add : ℕ → ℕ → ℕ
saturating_add a b = min (a + b) 18446744073709551615

unfoldable pub next_sequence : ℕ → ℕ
next_sequence n = (n + 1) % 2 ^ 32

-- What comes of a send: go on, or end with its error.
abbrev pub after_send :
    {A : Type 0}
    → Fallible (Unit {0}) × Channel
    → (Channel → Fallible A × Channel)
    → Fallible A × Channel
after_send (ok _, c) k = k c
after_send (err e, c) k = (err e, c)

-- The inner loop over the pieces of a frame: the next sequence number.
unfoldable pub send_chunks : (id sequence : ℕ) → List Bytes → Channel → Fallible ℕ × Channel
send_chunks id sequence [] c = (ok sequence, c)
send_chunks id sequence (piece ∷ rest) c =
    after_send (send (Message.http_request_chunk id piece sequence) c)
      (λ c'. send_chunks id (next_sequence sequence) rest c')

-- What comes of the pieces of a frame: the next frame, or the end with their error.
abbrev pub after_chunks :
    Fallible ℕ × Channel
    → (ℕ → Channel → Option (Fallible (Unit {0}) × Channel))
    → Option (Fallible (Unit {0}) × Channel)
after_chunks (ok next, c) k = k next c
after_chunks (err e, c) k = some (err e, c)

-- What comes of splitting a frame: its pieces are sent, or the code panics.
abbrev pub after_split : {A : Type 0} → Option (List Bytes) → (List Bytes → Option A) → Option A
after_split none k = none
after_split (some pieces) k = k pieces

-- The outer loop over the frames; a panic is `none`.
unfoldable pub stream_frames :
    StreamingConfig
    → (id total sequence : ℕ) → List Frame
    → Channel
    → Option (Fallible (Unit {0}) × Channel)
stream_frames config id total sequence [] c = some (send (Message.http_request_end id) c)
stream_frames config id total sequence (failed e ∷ frames) c =
    some (err (ExposeError.internal e), c)
stream_frames config id total sequence (trailers ∷ frames) c =
    stream_frames config id total sequence frames c
stream_frames config id total sequence (chunk bytes ∷ frames) c =
    let total' = saturating_add total (length bytes) in
    if ltb config.max_body_bytes total'
    then some (err (ExposeError.payload_too_large total' config.max_body_bytes), c)
    else after_split (chunks config.chunk_size_bytes bytes) (λ pieces.
      after_chunks (send_chunks id sequence pieces c)
        (λ next c'. stream_frames config id total' next frames c'))

-- What comes of the first message: the frames, or the end with its error.
abbrev pub after_start :
    Fallible (Unit {0}) × Channel
    → (Channel → Option (Fallible (Unit {0}) × Channel))
    → Option (Fallible (Unit {0}) × Channel)
after_start (ok _, c) k = k c
after_start (err e, c) k = some (err e, c)

-- `RequestStreamer::stream_with_path`; the method, the path and the headers are the texts that it
-- takes from the request.
unfoldable pub stream :
    StreamingConfig
    → (id : ℕ) → (method path : Text) → Headers
    → Option ℕ
    → List Frame
    → Channel
    → Option (Fallible (Unit {0}) × Channel)
stream config id method path headers content_length frames c =
    after_start (send (Message.http_request_start id method path headers content_length) c)
      (λ c'. stream_frames config id 0 0 frames c')
