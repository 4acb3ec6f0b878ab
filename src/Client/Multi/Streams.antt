-- ===== src/Client/Multi/Streams.antt =====
-- expose-client/src/multi.rs: streamed requests that share one connection. The buffer of a request
-- is found through the routes; a message of another request leaves it alone.
use expose.Prelude.{
  ℕ, ◌++◌, ◌≡◌, refl, sym, ◌∙◌, ap, Bool, false, Bool-cases, Option-cases, Result-cases, inl, inr,
  List, [], Option, none, some, ok, keep, arith, subst,
}
use expose.Prelude.Assoc.{
  nat_eq, ◌==◌, lookup, insert, remove, lookup-insert, lookup-remove, lookup-insert_self,
}
use expose.Prelude.Text.{Text, Bytes}
use expose.Common.Message.{Message, Headers}
use expose.Client.LocalProxy.{
  LocalProxy, StreamingRequest, begin_streaming_request, push_streaming_chunk,
  finish_streaming_request,
}
use expose.Client.TcpProxy.{SocketWrites, TcpLocalProxy, handle_data, handle_close}
use expose.Client.Multi.{
  TunnelContext, MultiTunnelManager, Standard, GivesValues, Effect, http_task, tcp_task, pong,
  protocol, MultiStep, go, multi_message, http_of, tcp_of, put_http, put_tcp, context_of, start_in,
  request_to, chunk_in, end_in, connect_in, data_in, close_in, track_http_request,
  clear_http_request, track_tcp_connection, remove_tcp_connection, http_context_by_headers,
  http_context_for_request, pick_tcp_context, tcp_context,
}
use expose.Client.Multi.Routing.{IsRouted, Known}
use expose.Client.Multi.Frames.{
  HttpFound, TcpFound, by_headers-HttpFound, for_request-HttpFound, tcp_context-TcpFound,
}

abbrev pub tagged : ℕ → Option StreamingRequest → Option (ℕ × StreamingRequest)
tagged t none = none
tagged t (some r) = some (t, r)

abbrev pub buffer_in : ℕ → Option (TunnelContext × LocalProxy) → Option (ℕ × StreamingRequest)
buffer_in id none = none
buffer_in id (some (c, p)) = tagged c.tunnel_id (lookup id p.pending_streams)

-- The tunnel and the buffer of a streamed request that is under way.
abbrev pub stream_of : ℕ → MultiTunnelManager → Option (ℕ × StreamingRequest)
stream_of id m = buffer_in id (http_of (context_of m (lookup id m.http_requests)))

-- The messages that name a request, and the tasks for it.
abbrev pub about : ℕ → Message → Bool
about id (Message.http_request j method path headers body) = j == id
about id (Message.http_request_start j method path headers n) = j == id
about id (Message.http_request_chunk j payload sequence) = j == id
about id (Message.http_request_end j) = j == id
about id _ = false

abbrev pub is_task : ℕ → Effect → Bool
is_task id (http_task t j method path headers body) = j == id
is_task id _ = false

module _ (id : ℕ) (m : MultiTunnelManager) (c : TunnelContext) (k : Known m c) where
  http_at :
      (p q : LocalProxy) (t : Option ℕ)
      → c.http_proxy ≡ some p
      → lookup id q.pending_streams ≡ lookup id p.pending_streams
      → buffer_in id (http_of (context_of (put_http c q m) t))
        ≡ buffer_in id (http_of (context_of m t))
  http_at p q none e l = refl
  http_at p q (some t) e l = elim (Bool-cases (c.tunnel_id == t)) [
    | inl h ↦
        let same : c.tunnel_id ≡ t = (nat_eq.eqb_iff c.tunnel_id t).0 h in
        rw
          (
            ← same,
            lookup-insert_self c.tunnel_id (record c { http_proxy = some q }) m.contexts,
            k,
            e,
            l,
          )
          refl
    | inr h ↦
        let same : lookup t (put_http c q m).contexts ≡ lookup t m.contexts =
          ground
            (arith, lookup-insert c.tunnel_id t (record c { http_proxy = some q }) m.contexts, h) in
        rw same refl
  ]

  tcp_at :
      (q : TcpLocalProxy) (t : Option ℕ)
      → buffer_in id (http_of (context_of (put_tcp c q m) t))
        ≡ buffer_in id (http_of (context_of m t))
  tcp_at q none = refl
  tcp_at q (some t) = elim (Bool-cases (c.tunnel_id == t)) [
    | inl h ↦
        let same : c.tunnel_id ≡ t = (nat_eq.eqb_iff c.tunnel_id t).0 h in
        rw (← same, lookup-insert_self c.tunnel_id (record c { tcp_proxy = some q }) m.contexts, k)
          (same_http c.http_proxy refl)
    | inr h ↦
        let same : lookup t (put_tcp c q m).contexts ≡ lookup t m.contexts =
          ground
            (arith, lookup-insert c.tunnel_id t (record c { tcp_proxy = some q }) m.contexts, h) in
        rw same refl
  ]
    where
      same_http :
          (o : Option LocalProxy)
          → c.http_proxy ≡ o
          → buffer_in id (http_of (some (record c { tcp_proxy = some q })))
            ≡ buffer_in id (http_of (some c))
      same_http none e = rw e refl
      same_http (some p) e = rw e refl

-- A step that leaves a request alone.
abbrev pub Apart : ℕ → MultiTunnelManager → MultiStep → Type 0
Apart id m s = (stream_of id s.1 ≡ stream_of id m) × (keep (is_task id) s.2 ≡ [])

module _ (id : ℕ) (m : MultiTunnelManager) where
  route_at :
      (routes : List (ℕ × ℕ))
      → lookup id routes ≡ lookup id m.http_requests
      → stream_of id (record m { http_requests = routes }) ≡ stream_of id m
  route_at routes e = rw e refl

  start_in-Apart :
      (j : ℕ) (method path : Text) (headers : Headers) (o : Option (TunnelContext × LocalProxy))
      → HttpFound m o
      → (j == id) ≡ false
      → Apart id m (start_in j method path headers m o)
  unfolding track_http_request begin_streaming_request
  start_in-Apart j method path headers none f n = (refl, refl)
  start_in-Apart j method path headers (some (c, p)) (k, e) n =
      let r : StreamingRequest = record {
        method = method;
        path = path;
        headers = headers;
        body = [];
      } in
      let q : LocalProxy = record p { pending_streams = insert j r p.pending_streams } in
      let same : lookup id (insert j c.tunnel_id m.http_requests) ≡ lookup id m.http_requests =
        ground (arith, lookup-insert j id c.tunnel_id m.http_requests, n) in
      (
        rw same (
            http_at id m c k p q (lookup id m.http_requests) e
              (ground (arith, lookup-insert j id r p.pending_streams, n))),
        refl,
      )

  request_to-Apart :
      (j : ℕ) (method path : Text) (headers : Headers) (body : Bytes)
      (o : Option (TunnelContext × LocalProxy))
      → (j == id) ≡ false
      → Apart id m (request_to j method path headers body m o)
  request_to-Apart j method path headers body none n = (refl, refl)
  request_to-Apart j method path headers body (some (c, p)) n = (refl, rw n refl)

  pushed :
      (j : ℕ) (payload : Bytes) (p q : LocalProxy)
      → (j == id) ≡ false
      → push_streaming_chunk j payload p ≡ ok q
      → lookup id q.pending_streams ≡ lookup id p.pending_streams
  unfolding push_streaming_chunk
  pushed j payload p q n h = elim (Option-cases (lookup j p.pending_streams)) [
    | inl e ↦ absurd (ground (arith, e, h))
    | inr (r, e) ↦ ground (
      arith,
      n,
      h,
      e,
      lookup-insert j id (record r { body = r.body ++ payload }) p.pending_streams,
    )
  ]

  chunk_in-Apart :
      (j : ℕ) (payload : Bytes) (o : Option (TunnelContext × LocalProxy))
      → HttpFound m o
      → (j == id) ≡ false
      → Apart id m (chunk_in j payload m o)
  chunk_in-Apart j payload none f n = (refl, refl)
  chunk_in-Apart j payload (some (c, p)) (k, e) n =
      elim (Result-cases (push_streaming_chunk j payload p)) [
        | inl (q, h) ↦
            rw h
              (http_at id m c k p q (lookup id m.http_requests) e (pushed j payload p q n h), refl)
        | inr (x, h) ↦ rw h (refl, refl)
      ]

  end_in-Apart :
      (j : ℕ) (o : Option (TunnelContext × LocalProxy))
      → HttpFound m o
      → (j == id) ≡ false
      → Apart id m (end_in j m o)
  unfolding clear_http_request finish_streaming_request
  end_in-Apart j none f n = (
    route_at (remove j m.http_requests) (ground (arith, lookup-remove j id m.http_requests, n)),
    refl,
  )
  end_in-Apart j (some (c, p)) (k, e) n =
      let q : LocalProxy = record p { pending_streams = remove j p.pending_streams } in
      let same : lookup id (remove j m.http_requests) ≡ lookup id m.http_requests =
        ground (arith, lookup-remove j id m.http_requests, n) in
      (
        rw same (
            http_at id m c k p q (lookup id m.http_requests) e
              (ground (arith, lookup-remove j id p.pending_streams, n))),
        no_task (lookup j p.pending_streams),
      )
    where
      no_task :
          (o : Option StreamingRequest)
          → keep (is_task id) (expose.Client.Multi.finished_task j c o) ≡ []
      no_task none = refl
      no_task (some r) = rw n refl

  connect_in-Apart :
      (j : ℕ) (remote_addr : Text) (o : Option (TunnelContext × TcpLocalProxy))
      → Apart id m (connect_in j remote_addr m o)
  unfolding track_tcp_connection
  connect_in-Apart j remote_addr none = (refl, refl)
  connect_in-Apart j remote_addr (some (c, p)) = (refl, refl)

  data_in-Apart :
      (writes : SocketWrites) (j : ℕ) (payload : Bytes) (o : Option (TunnelContext × TcpLocalProxy))
      → TcpFound m o
      → Apart id m (data_in writes j payload m o)
  data_in-Apart writes j payload none f = (refl, refl)
  data_in-Apart writes j payload (some (c, p)) (k, e) =
      elim (Result-cases (handle_data writes j payload p)) [
        | inl (q, h) ↦ rw h (tcp_at id m c k q (lookup id m.http_requests), refl)
        | inr (x, h) ↦ rw h (refl, refl)
      ]

  close_in-Apart :
      (j : ℕ) (o : Option (TunnelContext × TcpLocalProxy))
      → TcpFound m o
      → Apart id m (close_in j m o)
  unfolding remove_tcp_connection
  close_in-Apart j none f = (refl, refl)
  close_in-Apart j (some (c, p)) (k, e) =
      (tcp_at id m c k (handle_close j p) (lookup id m.http_requests), refl)

module _ (std : Standard) (g : GivesValues std) (writes : SocketWrites) (id : ℕ) where
  -- A message of another request leaves the request alone.
  pub other_message :
      (m : MultiTunnelManager) (x : Message)
      → IsRouted m
      → about id x ≡ false
      → Apart id m (multi_message std writes x m)
  unfolding multi_message
  other_message m (Message.http_request j method path headers body) r n =
      request_to-Apart id m j method path headers body
        (http_of (http_context_by_headers std headers m)) n
  other_message m (Message.http_request_start j method path headers l) r n =
      start_in-Apart id m j method path headers _ (by_headers-HttpFound std g m r headers) n
  other_message m (Message.http_request_chunk j payload sequence) r n =
      chunk_in-Apart id m j payload _ (for_request-HttpFound std g m r j) n
  other_message m (Message.http_request_end j) r n =
      end_in-Apart id m j _ (for_request-HttpFound std g m r j) n
  other_message m (Message.tcp_connect j remote_addr) r n =
      connect_in-Apart id m j remote_addr (tcp_of (pick_tcp_context std m))
  other_message m (Message.tcp_data j payload sequence) r n =
      data_in-Apart id m writes j payload _ (tcp_context-TcpFound std g m r j)
  other_message m (Message.tcp_close j reason) r n =
      close_in-Apart id m j _ (tcp_context-TcpFound std g m r j)
  other_message m (Message.disconnect reason) r n = (refl, refl)
  other_message m (Message.error code message) r n = (refl, refl)
  other_message m (Message.connect x) r n = (refl, refl)
  other_message m (Message.connect_ack x) r n = (refl, refl)
  other_message m (Message.http_response j status headers body) r n = (refl, refl)
  other_message m (Message.http_response_start j status headers l) r n = (refl, refl)
  other_message m (Message.http_response_chunk j payload sequence) r n = (refl, refl)
  other_message m (Message.http_response_end j) r n = (refl, refl)
  other_message m (Message.tcp_connect_ack j success e) r n = (refl, refl)

-- A context that is found by its route, with its proxy replaced.
pub http_here :
    (m : MultiTunnelManager) (c : TunnelContext) (p q : LocalProxy) (t : Option ℕ)
    → IsRouted m
    → http_of (context_of m t) ≡ some (c, p)
    → http_of (context_of (put_http c q m) t) ≡ some (record c { http_proxy = some q }, q)
http_here m c p q none r h = absurd (cc)
http_here m c p q (some t) r h = elim (Option-cases (lookup t m.contexts)) [
  | inl e ↦ absurd (ground (arith, e, h))
  | inr (d, e) ↦
      let same : d ≡ c = found d (subst (λ o. http_of o ≡ some (c, p)) e h) in
      let own : c.tunnel_id ≡ t = ap (λ x. x.tunnel_id) (sym same) ∙ (r.own t d e).0 in
      rw (← own, lookup-insert_self c.tunnel_id (record c { http_proxy = some q }) m.contexts) refl
]
  where
    found : (d : TunnelContext) → http_of (some d) ≡ some (c, p) → d ≡ c
    found d h = elim (Option-cases d.http_proxy) [
      | inl e ↦ absurd (ground (arith, e, h))
      | inr (x, e) ↦ ground (arith, e, h)
    ]
