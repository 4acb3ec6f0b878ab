-- ===== src/Client/Multi/Frames.antt =====
-- expose-client/src/multi.rs: `handle_frame` keeps the routes of a `MultiTunnelManager` in order.
use expose.Prelude.{
  ℕ, ◌≡◌, refl, sym, subst, Bool, Bool-cases, Option-cases, Result-cases, inl, inr, List, [], ◌∷◌,
  Option, none, some, All, find, arith,
}
use expose.Prelude.Assoc.{nat_eq, lookup, lookup-insert_self}
use expose.Prelude.Text.{Text, Bytes, text_eq}
use expose.Common.Types.{TunnelProtocol}
use expose.Common.Message.{Message, Headers}
use expose.Client.LocalProxy.{LocalProxy}
use expose.Client.TcpProxy.{SocketWrites, TcpLocalProxy, handle_data, handle_close}
use expose.Client.LocalProxy.{
  push_streaming_chunk, begin_streaming_request, finish_streaming_request,
}
use expose.Client.Multi.{
  TunnelContext, MultiTunnelManager, Standard, GivesValues, multi_message, http_context_by_headers,
  http_context_for_request, pick_tcp_context, tcp_context, http_of, tcp_of, put_http, put_tcp,
  context_of, context_for_host, context_named, host_header, chunk_in, data_in, serves, start_in,
  request_to, end_in, connect_in, close_in,
}
use expose.Client.Multi.{multi_frame}
use expose.Client.Session.{WsMessage}
use expose.Common.Codec.{Bincode, decode}
use expose.Client.Multi.Routing.{
  IsRouted, Known, put_http-IsRouted, put_tcp-IsRouted, http_protocol, tcp_protocol, track-IsRouted,
  clear-IsRouted, track_tcp-IsRouted, remove_tcp-IsRouted,
}

find-All {κ} :
    {A : Type 0} (P : A → Type κ) (test : A → Bool) (xs : List A) (a : A)
    → All P xs
    → find test xs ≡ some a
    → P a
find-All P test [] a h e = absurd (cc)
find-All P test (x ∷ xs) a h e = elim (Bool-cases (test x)) [
  | inl q ↦ let f : x ≡ a = ground (arith, q, e) in subst P f h.0
  | inr q ↦ find-All P test xs a h.1 (ground (arith, q, e))
]

module _ (std : Standard) (g : GivesValues std) (m : MultiTunnelManager) (r : IsRouted m) where
  pub lookup-Known : (t : ℕ) (c : TunnelContext) → lookup t m.contexts ≡ some c → Known m c
  lookup-Known t c h =
      let e : t ≡ c.tunnel_id = sym (r.own t c h).0 in subst (λ x. lookup x m.contexts ≡ some c) e h

  pub find-Known :
      (test : TunnelContext → Bool) (c : TunnelContext)
      → find test (std.values m.contexts) ≡ some c
      → Known m c
  find-Known test c h =
      let (t, e) =
        find-All (λ d. (t : ℕ) × (lookup t m.contexts ≡ some d)) test (std.values m.contexts) c
          (g m.contexts) h in
      lookup-Known t c e

  pub context_of-Known : (t : Option ℕ) (c : TunnelContext) → context_of m t ≡ some c → Known m c
  context_of-Known none c h = absurd (cc)
  context_of-Known (some t) c h = lookup-Known t c h

  context_named-Known :
      (t : Option ℕ) (c : TunnelContext) → context_named std m t ≡ some c → Known m c
  context_named-Known none c h = find-Known (serves TunnelProtocol.http) c h
  context_named-Known (some t) c h = lookup-Known t c h

  pub context_for_host-Known :
      (host : Option Text) (c : TunnelContext) → context_for_host std m host ≡ some c → Known m c
  context_for_host-Known none c h = find-Known (serves TunnelProtocol.http) c h
  context_for_host-Known (some host) c h = context_named-Known _ c h

abbrev pub HttpFound : MultiTunnelManager → Option (TunnelContext × LocalProxy) → Type 0
HttpFound m none = Unit
HttpFound m (some (c, p)) = Known m c × (c.http_proxy ≡ some p)

abbrev pub TcpFound : MultiTunnelManager → Option (TunnelContext × TcpLocalProxy) → Type 0
TcpFound m none = Unit
TcpFound m (some (c, p)) = Known m c × (c.tcp_proxy ≡ some p)

pub http_of-HttpFound :
    (m : MultiTunnelManager) (o : Option TunnelContext)
    → ((c : TunnelContext) → o ≡ some c → Known m c)
    → HttpFound m (http_of o)
http_of-HttpFound m none k = tt
http_of-HttpFound m (some c) k = elim (Option-cases c.http_proxy) [
  | inl e ↦ rw e tt
  | inr (p, e) ↦ rw e (k c refl, e)
]

pub tcp_of-TcpFound :
    (m : MultiTunnelManager) (o : Option TunnelContext)
    → ((c : TunnelContext) → o ≡ some c → Known m c)
    → TcpFound m (tcp_of o)
tcp_of-TcpFound m none k = tt
tcp_of-TcpFound m (some c) k = elim (Option-cases c.tcp_proxy) [
  | inl e ↦ rw e tt
  | inr (p, e) ↦ rw e (k c refl, e)
]

module _ (m : MultiTunnelManager) (r : IsRouted m) where
  request_to-IsRouted :
      (id : ℕ) (method path : Text) (headers : Headers) (body : Bytes)
      (o : Option (TunnelContext × LocalProxy))
      → IsRouted (request_to id method path headers body m o).1
  request_to-IsRouted id method path headers body none = r
  request_to-IsRouted id method path headers body (some x) = r

  start_in-IsRouted :
      (id : ℕ) (method path : Text) (headers : Headers) (o : Option (TunnelContext × LocalProxy))
      → HttpFound m o
      → IsRouted (start_in id method path headers m o).1
  start_in-IsRouted id method path headers none f = r
  start_in-IsRouted id method path headers (some (c, p)) (k, e) =
      let q : LocalProxy = begin_streaming_request id method path headers p in
      track-IsRouted (put_http c q m) (put_http-IsRouted m r c k p q e) id c.tunnel_id (
        record c { http_proxy = some q },
        lookup-insert_self c.tunnel_id (record c { http_proxy = some q }) m.contexts,
        http_protocol m r c k p e,
      )

  chunk_in-IsRouted :
      (id : ℕ) (payload : Bytes) (o : Option (TunnelContext × LocalProxy))
      → HttpFound m o
      → IsRouted (chunk_in id payload m o).1
  chunk_in-IsRouted id payload none f = r
  chunk_in-IsRouted id payload (some (c, p)) (k, e) =
      elim (Result-cases (push_streaming_chunk id payload p)) [
        | inl (q, h) ↦ rw h (put_http-IsRouted m r c k p q e)
        | inr (x, h) ↦ rw h r
      ]

  end_in-IsRouted :
      (id : ℕ) (o : Option (TunnelContext × LocalProxy))
      → HttpFound m o
      → IsRouted (end_in id m o).1
  end_in-IsRouted id none f = clear-IsRouted m r id
  end_in-IsRouted id (some (c, p)) (k, e) =
      let q : LocalProxy = (finish_streaming_request id p).1 in
      clear-IsRouted (put_http c q m) (put_http-IsRouted m r c k p q e) id

  connect_in-IsRouted :
      (id : ℕ) (remote_addr : Text) (o : Option (TunnelContext × TcpLocalProxy))
      → TcpFound m o
      → IsRouted (connect_in id remote_addr m o).1
  connect_in-IsRouted id remote_addr none f = r
  connect_in-IsRouted id remote_addr (some (c, p)) (k, e) =
      track_tcp-IsRouted m r id c.tunnel_id (c, k, tcp_protocol m r c k p e)

  data_in-IsRouted :
      (writes : SocketWrites) (id : ℕ) (payload : Bytes)
      (o : Option (TunnelContext × TcpLocalProxy))
      → TcpFound m o
      → IsRouted (data_in writes id payload m o).1
  data_in-IsRouted writes id payload none f = r
  data_in-IsRouted writes id payload (some (c, p)) (k, e) =
      elim (Result-cases (handle_data writes id payload p)) [
        | inl (q, h) ↦ rw h (put_tcp-IsRouted m r c k p q e)
        | inr (x, h) ↦ rw h r
      ]

  close_in-IsRouted :
      (id : ℕ) (o : Option (TunnelContext × TcpLocalProxy))
      → TcpFound m o
      → IsRouted (close_in id m o).1
  close_in-IsRouted id none f = remove_tcp-IsRouted m r id
  close_in-IsRouted id (some (c, p)) (k, e) =
      let q : TcpLocalProxy = handle_close id p in
      remove_tcp-IsRouted (put_tcp c q m) (put_tcp-IsRouted m r c k p q e) id

module _ (std : Standard) (g : GivesValues std) (m : MultiTunnelManager) (r : IsRouted m) where
  pub by_headers-HttpFound :
      (headers : Headers) → HttpFound m (http_of (http_context_by_headers std headers m))
  unfolding http_context_by_headers
  by_headers-HttpFound headers =
      http_of-HttpFound m _ (context_for_host-Known std g m r (host_header std headers))

  pub for_request-HttpFound : (id : ℕ) → HttpFound m (http_of (http_context_for_request id m))
  unfolding http_context_for_request
  for_request-HttpFound id =
      http_of-HttpFound m _ (context_of-Known std g m r (lookup id m.http_requests))

  pub picked-TcpFound : TcpFound m (tcp_of (pick_tcp_context std m))
  unfolding pick_tcp_context
  picked-TcpFound = tcp_of-TcpFound m _ (find-Known std g m r (serves TunnelProtocol.tcp))

  pub tcp_context-TcpFound : (id : ℕ) → TcpFound m (tcp_of (tcp_context id m))
  unfolding tcp_context
  tcp_context-TcpFound id =
      tcp_of-TcpFound m _ (context_of-Known std g m r (lookup id m.tcp_connections))

  pub multi_message-IsRouted :
      (writes : SocketWrites) (message : Message) → IsRouted (multi_message std writes message m).1
  unfolding multi_message
  multi_message-IsRouted writes (Message.http_request id method path headers body) =
      request_to-IsRouted m r id method path headers body
        (http_of (http_context_by_headers std headers m))
  multi_message-IsRouted writes (Message.http_request_start id method path headers n) =
      start_in-IsRouted m r id method path headers _ (by_headers-HttpFound headers)
  multi_message-IsRouted writes (Message.http_request_chunk id payload sequence) =
      chunk_in-IsRouted m r id payload _ (for_request-HttpFound id)
  multi_message-IsRouted writes (Message.http_request_end id) =
      end_in-IsRouted m r id _ (for_request-HttpFound id)
  multi_message-IsRouted writes (Message.tcp_connect id remote_addr) =
      connect_in-IsRouted m r id remote_addr _ picked-TcpFound
  multi_message-IsRouted writes (Message.tcp_data id payload sequence) =
      data_in-IsRouted m r writes id payload _ (tcp_context-TcpFound id)
  multi_message-IsRouted writes (Message.tcp_close id reason) =
      close_in-IsRouted m r id _ (tcp_context-TcpFound id)
  multi_message-IsRouted writes message = r

  pub multi_frame-IsRouted :
      (b : Bincode) (writes : SocketWrites) (frame : WsMessage)
      → IsRouted (multi_frame b std writes frame m).1
  unfolding multi_frame
  multi_frame-IsRouted b writes (WsMessage.binary bytes) = elim (Result-cases (decode b bytes)) [
    | inl (message, h) ↦ rw h (multi_message-IsRouted writes message)
    | inr (e, h) ↦ rw h r
  ]
  multi_frame-IsRouted b writes frame = r
