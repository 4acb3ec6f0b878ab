-- ===== src/Server/Proxy/Transfer.antt =====
-- expose-server/src/proxy/streaming.rs: what `stream` sends on a channel that stays open, when no
-- frame fails and the body is within the limit.
use expose.Prelude.{
  true, false, ℕ, ◌+◌, ◌≤◌, ◌<◌, ◌^◌, ◌++◌, ◌≡◌, ◌∙◌, refl, ap, sym, subst, List, [], ◌∷◌, Option,
  some, ok, ltb, length, arith, All, length-append, append_assoc, append-nil,
}
use expose.Prelude.Text.{Text, Bytes}
use expose.Common.Message.{Message, Headers}
use expose.Server.Proxy.Body.{Frame, chunk, trailers, failed, payload, is_clean}
use expose.Server.Proxy.Chunks.{chunks, concat, Fits, chunks_lem, chunks_total}
use expose.Server.Proxy.Streaming.{
  Channel, send, StreamingConfig, saturating_add, next_sequence, send_chunks, stream_frames, stream,
}

-- A channel that never closes.
abbrev pub Open : Channel → Type 0
Open c = (n : ℕ) → c.accepts n ≡ true

-- The channel when more messages are in it.
abbrev pub sent_too : List Message → Channel → Channel
sent_too messages c = record c { sent = c.sent ++ messages }

-- The pieces as messages, their sequence numbers from one on, and the number after them.
abbrev pub chunk_messages : (id sequence : ℕ) → List Bytes → List Message
chunk_messages id sequence [] = []
chunk_messages id sequence (piece ∷ rest) =
    Message.http_request_chunk id piece sequence ∷ chunk_messages id (next_sequence sequence) rest

abbrev pub sequence_after : ℕ → List Bytes → ℕ
sequence_after sequence [] = sequence
sequence_after sequence (piece ∷ rest) = sequence_after (next_sequence sequence) rest

pub send-Open :
    (message : Message) (c : Channel) → Open c → send message c ≡ (ok tt, sent_too (message ∷ []) c)
unfolding send
send-Open message c o = ground (arith, o (length c.sent))

pub sent_too_nil : (c : Channel) → sent_too [] c ≡ c
sent_too_nil c = ap (λ s. record c { sent = s }) (append-nil c.sent)

pub sent_too-append :
    (ms ns : List Message) (c : Channel) → sent_too ns (sent_too ms c) ≡ sent_too (ms ++ ns) c
sent_too-append ms ns c = ap (λ s. record c { sent = s }) (append_assoc c.sent ms ns)

pub send_chunks-Open :
    (id sequence : ℕ) (ps : List Bytes) (c : Channel)
    → Open c
    → send_chunks id sequence ps c
      ≡ (ok (sequence_after sequence ps), sent_too (chunk_messages id sequence ps) c)
unfolding send_chunks
send_chunks-Open id sequence [] c o = rw (sent_too_nil c)
send_chunks-Open id sequence (p ∷ ps) c o = rw (
  send-Open (Message.http_request_chunk id p sequence) c o,
  send_chunks-Open id (next_sequence sequence) ps
      (sent_too (Message.http_request_chunk id p sequence ∷ []) c) o,
  sent_too-append (Message.http_request_chunk id p sequence ∷ [])
      (chunk_messages id (next_sequence sequence) ps) c,
)

chunk_messages-append :
    (id sequence : ℕ) (ps qs : List Bytes)
    → chunk_messages id sequence ps ++ chunk_messages id (sequence_after sequence ps) qs
      ≡ chunk_messages id sequence (ps ++ qs)
chunk_messages-append id sequence [] qs = refl
chunk_messages-append id sequence (p ∷ ps) qs =
    ap (◌∷◌ (Message.http_request_chunk id p sequence))
      (chunk_messages-append id (next_sequence sequence) ps qs)

concat-append : (ps qs : List Bytes) → concat (ps ++ qs) ≡ concat ps ++ concat qs
concat-append [] qs = refl
concat-append (p ∷ ps) qs =
    ap (λ t. p ++ t) (concat-append ps qs) ∙ sym (append_assoc p (concat ps) (concat qs))

All-append : {A : Type 0} (P : A → Type 0) (xs ys : List A) → All P xs → All P ys → All P (xs ++ ys)
All-append P [] ys a b = b
All-append P (x ∷ xs) ys (p, a) b = (p, All-append P xs ys a b)

-- What the outer loop does on an open channel: the pieces that it sends, and that they carry what
-- the frames do.
abbrev Streams : StreamingConfig → (id total sequence : ℕ) → List Frame → Channel → Type 0
Streams config id total sequence frames c =
    (ps : List Bytes) × (stream_frames config id total sequence frames c
      ≡ some
          (ok tt, sent_too (chunk_messages id sequence ps ++ (Message.http_request_end id ∷ [])) c))
    × (concat ps ≡ payload frames)
    × All (Fits config.chunk_size_bytes) ps

saturating_add_small : (a b : ℕ) → a + b < 2 ^ 64 → saturating_add a b ≡ a + b
unfolding saturating_add
saturating_add_small a b h = ground arith

-- One data frame: its pieces, then those of the frames after it.
stream_frames-chunk :
    (config : StreamingConfig) (id total sequence : ℕ) (bytes : Bytes) (frames : List Frame)
    (c : Channel) (ps : List Bytes)
    → Open c
    → chunks config.chunk_size_bytes bytes ≡ some ps
    → ltb config.max_body_bytes (saturating_add total (length bytes)) ≡ false
    → Streams config id
        (saturating_add total (length bytes))
        (sequence_after sequence ps)
        frames
        (sent_too (chunk_messages id sequence ps) c)
    → Streams config id total sequence (chunk bytes ∷ frames) c
unfolding stream_frames
stream_frames-chunk config id total sequence bytes frames c ps o e l (qs, s, j, a) = (
  ps ++ qs,
  rw (
    l,
    e,
    send_chunks-Open id sequence ps c o,
    s,
    sent_too-append (chunk_messages id sequence ps)
        (chunk_messages id (sequence_after sequence ps) qs ++ (Message.http_request_end id ∷ [])) c,
    sym (chunk_messages-append id sequence ps qs),
    append_assoc (chunk_messages id sequence ps) (chunk_messages id (sequence_after sequence ps) qs)
        (Message.http_request_end id ∷ []),
  ),
  rw (concat-append ps qs, j, (chunks_lem config.chunk_size_bytes bytes ps e).0) refl,
  All-append (Fits config.chunk_size_bytes) ps qs (chunks_lem config.chunk_size_bytes bytes ps e).1
      a,
)

stream_frames-Open :
    (config : StreamingConfig) (id total sequence : ℕ) (frames : List Frame) (c : Channel)
    → Open c
    → 0 < config.chunk_size_bytes
    → config.max_body_bytes < 2 ^ 64
    → is_clean frames ≡ true
    → total + length (payload frames) ≤ config.max_body_bytes
    → Streams config id total sequence frames c
unfolding stream_frames
stream_frames-Open config id total sequence [] c o z w k h =
    ([], rw (send-Open (Message.http_request_end id) c o), refl, tt)
stream_frames-Open config id total sequence (failed e ∷ frames) c o z w k h = absurd (cc)
stream_frames-Open config id total sequence (trailers ∷ frames) c o z w k h =
    stream_frames-Open config id total sequence frames c o z w k h
stream_frames-Open config id total sequence (chunk bytes ∷ frames) c o z w k h =
    let found = chunks_total config.chunk_size_bytes bytes z in
    let fits : total + length bytes + length (payload frames) ≤ config.max_body_bytes =
      omega (arith, length-append bytes (payload frames)) in
    let added = saturating_add_small total (length bytes) (omega arith) in
    stream_frames-chunk config id total sequence bytes frames c found.0 o found.1
      (ground (arith, added))
      (subst
        (λ t.
          Streams config id t (sequence_after sequence found.0) frames
            (sent_too (chunk_messages id sequence found.0) c))
        (sym added)
        (stream_frames-Open config id (total + length bytes) (sequence_after sequence found.0)
          frames (sent_too (chunk_messages id sequence found.0) c) o z w k fits))

-- A request whose reads all work and whose body is within the limit goes out whole on a channel
-- that stays open: one start, then chunks that are numbered from 0, are not empty, have at most the
-- configured size and carry the body in order, then one end. The chunk size is not zero and the
-- limit is a 64-bit number.
pub stream-Open :
    (config : StreamingConfig) (id : ℕ) (method path : Text) (headers : Headers)
    (content_length : Option ℕ) (frames : List Frame) (c : Channel)
    → Open c
    → 0 < config.chunk_size_bytes
    → config.max_body_bytes < 2 ^ 64
    → is_clean frames ≡ true
    → length (payload frames) ≤ config.max_body_bytes
    → (ps : List Bytes) × (stream config id method path headers content_length frames c
        ≡ some (
          ok tt,
          sent_too
              (Message.http_request_start id method path headers content_length
                  ∷ chunk_messages id 0 ps
                ++ (Message.http_request_end id ∷ []))
              c,
        ))
      × (concat ps ≡ payload frames)
      × All (Fits config.chunk_size_bytes) ps
unfolding stream
stream-Open config id method path headers content_length frames c o z w k h =
    let start = Message.http_request_start id method path headers content_length in
    let (ps, s, j, a) =
      stream_frames-Open config id 0 0 frames (sent_too (start ∷ []) c) o z w k (omega arith) in
    (
      ps,
      rw (
        send-Open start c o,
        s,
        sent_too-append (start ∷ []) (chunk_messages id 0 ps ++ (Message.http_request_end id ∷ []))
            c,
      ),
      j,
      a,
    )
