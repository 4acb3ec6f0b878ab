-- ===== src/Client/Delivery.antt =====
-- expose-client/src/tunnel.rs and expose-client/src/proxy.rs: what the client makes of the messages
-- of a streamed request, and with expose-server/src/proxy/streaming.rs the way of a request from
-- the server to the local service.
use expose.Prelude.{
  ℕ, ◌+◌, ◌≤◌, ◌<◌, ◌^◌, ◌≡◌, ◌∙◌, refl, ◌++◌, ap, sym, subst, true, if◌then◌else◌, List, [], ◌∷◌,
  Option, some, none, ok, length, arith, length-append, append_assoc, append-nil,
}
use expose.Prelude.Assoc.{
  nat_eq, ◌==◌, lookup, insert, remove, lookup-insert, lookup-remove, lookup-insert_self,
}
use expose.Prelude.Text.{Text, Bytes}
use expose.Common.Error.{Fallible}
use expose.Common.Message.{Message, Headers}
use expose.Common.Codec.{Bincode, RoundTrips, encode, decode-encode}
use expose.Client.LocalProxy.{
  LocalProxy, StreamingRequest, stream_buffer_limit, begin_streaming_request, push_streaming_chunk,
  finish_streaming_request,
}
use expose.Client.TcpProxy.{SocketWrites, TcpLocalProxy}
use expose.Client.Session.{
  WsMessage, FrameControl, Action, proxy_task, Session, handle_message, handle_frame,
}
use expose.Client.Loop.{Event, received, session_loop, prepend}
use expose.Server.Proxy.Body.{Frame, payload, is_clean}
use expose.Server.Proxy.Chunks.{concat}
use expose.Server.Proxy.Streaming.{Channel, StreamingConfig, next_sequence, stream}
use expose.Server.Proxy.Transfer.{Open, chunk_messages, sent_too, stream-Open}

-- The bytes of a list of messages, as `encode` writes them.
abbrev pub Encoded : Bincode → List Message → List Bytes → Type 0
Encoded b [] [] = Unit
Encoded b (m ∷ ms) (x ∷ xs) = (encode b m ≡ ok x) × Encoded b ms xs
Encoded b [] (x ∷ xs) = ⊥
Encoded b (m ∷ ms) [] = ⊥

-- Binary frames, then other events.
abbrev pub frames_then : List Bytes → List Event → List Event
frames_then [] rest = rest
frames_then (x ∷ xs) rest = received (WsMessage.binary x) ∷ frames_then xs rest

abbrev pub with_proxies : LocalProxy → Option TcpLocalProxy → Session
with_proxies p t = record { http_proxy = some p; tcp_proxy = t }

pub loop_step :
    (b : Bincode) (writes : SocketWrites) (m : Message) (x : Bytes) (events : List Event)
    (s s' : Session) (actions : List Action)
    → RoundTrips b
    → encode b m ≡ ok x
    → handle_message writes m s ≡ (ok FrameControl.continue, s', actions)
    → session_loop b writes (received (WsMessage.binary x) ∷ events) s
      ≡ prepend actions (session_loop b writes events s')
unfolding session_loop handle_frame
loop_step b writes m x events s s' actions rt e h = rw (decode-encode b m x rt e, h)

push_fits :
    (id : ℕ) (bytes : Bytes) (p : LocalProxy) (r : StreamingRequest)
    → lookup id p.pending_streams ≡ some r
    → length r.body + length bytes ≤ stream_buffer_limit
    → push_streaming_chunk id bytes p
      ≡ ok (record p {
        pending_streams = insert id (record r { body = r.body ++ bytes }) p.pending_streams;
      })
unfolding push_streaming_chunk
push_fits id bytes p r e h = ground (arith, e)

-- One task with the whole body, and the stream's buffer gone while the others stay.
abbrev pub Delivers :
    Bincode
    → SocketWrites
    → List Bytes
    → List Event
    → ℕ
    → Action
    → LocalProxy
    → Option TcpLocalProxy
    → Type 0
Delivers b writes xs rest id task p t =
    (p' : LocalProxy) × (session_loop b writes (frames_then xs rest) (with_proxies p t)
      ≡ prepend (task ∷ []) (session_loop b writes rest (with_proxies p' t)))
    × ((j : ℕ)
        → lookup j p'.pending_streams ≡ (if id == j then none else lookup j p.pending_streams))

Delivers-end :
    (b : Bincode) (writes : SocketWrites) (id : ℕ) (xs : List Bytes) (rest : List Event)
    (p : LocalProxy) (t : Option TcpLocalProxy) (r : StreamingRequest)
    → RoundTrips b
    → Encoded b (Message.http_request_end id ∷ []) xs
    → lookup id p.pending_streams ≡ some r
    → Delivers b writes xs rest id (proxy_task id r.method r.path r.headers r.body) p t
unfolding handle_message finish_streaming_request
Delivers-end b writes id [] rest p t r rt e h = absurd e
Delivers-end b writes id (x ∷ []) rest p t r rt e h = (
  record p { pending_streams = remove id p.pending_streams },
  loop_step b writes (Message.http_request_end id) x rest (with_proxies p t)
      (with_proxies (record p { pending_streams = remove id p.pending_streams }) t)
      (proxy_task id r.method r.path r.headers r.body ∷ []) rt e.0 (rw h),
  λ j. lookup-remove id j p.pending_streams,
)
Delivers-end b writes id (x ∷ y ∷ xs) rest p t r rt e h = absurd e.1

-- A message that only changes the stream's own buffer puts the delivery off.
Delivers-later :
    (b : Bincode) (writes : SocketWrites) (id : ℕ) (m : Message) (x : Bytes) (xs : List Bytes)
    (rest : List Event) (p : LocalProxy) (t : Option TcpLocalProxy) (v : StreamingRequest)
    (task : Action)
    → RoundTrips b
    → encode b m ≡ ok x
    → handle_message writes m (with_proxies p t) ≡ (
      ok FrameControl.continue,
      with_proxies (record p { pending_streams = insert id v p.pending_streams }) t,
      [],
    )
    → Delivers b writes xs rest id task
        (record p { pending_streams = insert id v p.pending_streams })
        t
    → Delivers b writes (x ∷ xs) rest id task p t
Delivers-later b writes id m x xs rest p t v task rt e h (p', d, k) = (
  p',
  loop_step b writes m x (frames_then xs rest) (with_proxies p t)
        (with_proxies (record p { pending_streams = insert id v p.pending_streams }) t) [] rt e h
      ∙ d,
  λ j. ground (arith, k j, lookup-insert id j v p.pending_streams),
)

Delivers-chunks :
    (b : Bincode) (writes : SocketWrites) (id sequence : ℕ) (ps xs : List Bytes) (rest : List Event)
    (p : LocalProxy) (t : Option TcpLocalProxy) (r : StreamingRequest)
    → RoundTrips b
    → Encoded b (chunk_messages id sequence ps ++ (Message.http_request_end id ∷ [])) xs
    → lookup id p.pending_streams ≡ some r
    → length r.body + length (concat ps) ≤ stream_buffer_limit
    → Delivers b writes xs rest id
        (proxy_task id r.method r.path r.headers (r.body ++ concat ps))
        p
        t
unfolding handle_message
Delivers-chunks b writes id sequence [] xs rest p t r rt e h l =
    subst (λ z. Delivers b writes xs rest id (proxy_task id r.method r.path r.headers z) p t)
      (sym (append-nil r.body)) (Delivers-end b writes id xs rest p t r rt e h)
Delivers-chunks b writes id sequence (q ∷ ps) [] rest p t r rt e h l = absurd e
Delivers-chunks b writes id sequence (q ∷ ps) (x ∷ xs) rest p t r rt e h l =
    let r' : StreamingRequest = record r { body = r.body ++ q } in
    let p' : LocalProxy = record p { pending_streams = insert id r' p.pending_streams } in
    Delivers-later b writes id (Message.http_request_chunk id q sequence) x xs rest p t r' _ rt e.0
      (rw (push_fits id q p r h (omega (arith, length-append q (concat ps)))))
      (subst (λ z. Delivers b writes xs rest id (proxy_task id r.method r.path r.headers z) p' t)
        (append_assoc r.body q (concat ps))
        (Delivers-chunks b writes id (next_sequence sequence) ps xs rest p' t r' rt e.1
          (lookup-insert_self id r' p.pending_streams)
          (omega (arith, length-append q (concat ps), length-append r.body q))))

Delivers-request :
    (b : Bincode) (writes : SocketWrites) (id : ℕ) (method path : Text) (headers : Headers)
    (content_length : Option ℕ) (ps xs : List Bytes) (rest : List Event) (p : LocalProxy)
    (t : Option TcpLocalProxy)
    → RoundTrips b
    → Encoded b
        (Message.http_request_start id method path headers content_length ∷ chunk_messages id 0 ps
          ++ (Message.http_request_end id ∷ []))
        xs
    → length (concat ps) ≤ stream_buffer_limit
    → Delivers b writes xs rest id (proxy_task id method path headers (concat ps)) p t
unfolding handle_message begin_streaming_request
Delivers-request b writes id method path headers content_length ps [] rest p t rt e l = absurd e
Delivers-request b writes id method path headers content_length ps (x ∷ xs) rest p t rt e l =
    let r : StreamingRequest = record {
      method = method;
      path = path;
      headers = headers;
      body = [];
    } in
    Delivers-later b writes id (Message.http_request_start id method path headers content_length) x
      xs rest p t r _ rt e.0 refl
      (Delivers-chunks b writes id 0 ps xs rest
        (record p { pending_streams = insert id r p.pending_streams }) t r rt e.1
        (lookup-insert_self id r p.pending_streams) (omega arith))

channel_sent :
    (c c' : Channel) (ms : List Message)
    → c.sent ≡ []
    → Path (Option (Fallible (Unit {0}) × Channel)) (some (ok tt, c')) (some (ok tt, sent_too ms c))
    → c'.sent ≡ ms
channel_sent c c' ms n h =
    let same : c' ≡ sent_too ms c = ground arith in ap (λ d. d.sent) same ∙ ap (λ s. s ++ ms) n

-- A request that the server streams arrives whole: when the channel stays open, every read of the
-- body works and the body is within the server's limit and the client's buffer, then the client's
-- loop, fed with the frames of just these messages, starts one task, for this request and with the
-- whole body in order, goes on with the events after them, and leaves no buffer for the request and
-- the buffers of other requests as they were. The chunk size is not zero, the server's limit is a
-- 64-bit number, and every message has an encoding that bincode reads back.
pub stream-session_loop :
    (config : StreamingConfig) (id : ℕ) (method path : Text) (headers : Headers)
    (content_length : Option ℕ) (frames : List Frame) (c c' : Channel) (b : Bincode)
    (writes : SocketWrites) (xs : List Bytes) (rest : List Event) (p : LocalProxy)
    (t : Option TcpLocalProxy)
    → Open c
    → c.sent ≡ []
    → 0 < config.chunk_size_bytes
    → config.max_body_bytes < 2 ^ 64
    → is_clean frames ≡ true
    → length (payload frames) ≤ config.max_body_bytes
    → length (payload frames) ≤ stream_buffer_limit
    → RoundTrips b
    → stream config id method path headers content_length frames c ≡ some (ok tt, c')
    → Encoded b c'.sent xs
    → Delivers b writes xs rest id (proxy_task id method path headers (payload frames)) p t
stream-session_loop config id method path headers content_length frames c c' b writes xs rest p t o
      n z w k h l rt s e =
    let (ps, s', j, _) =
      stream-Open config id method path headers content_length frames c o z w k h in
    let messages : List Message =
      Message.http_request_start id method path headers content_length ∷ chunk_messages id 0 ps
      ++ (Message.http_request_end id ∷ []) in
    let sent : c'.sent ≡ messages = channel_sent c c' messages n (sym s ∙ s') in
    subst (λ y. Delivers b writes xs rest id (proxy_task id method path headers y) p t) j
      (Delivers-request b writes id method path headers content_length ps xs rest p t rt
        (subst (λ ms. Encoded b ms xs) sent e)
        (subst (λ y. length y ≤ stream_buffer_limit) (sym j) l))
