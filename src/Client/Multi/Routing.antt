-- ===== src/Client/Multi/Routing.antt =====
-- expose-client/src/multi.rs: the routes that a `MultiTunnelManager` keeps, and what a frame does to
-- them. A list of messages is handled in turn until one of them fails.
use expose.Prelude.{
  ℕ, ◌≡◌, refl, subst, Bool-cases, inl, inr, Option, none, some, arith, if◌then◌else◌,
}
use expose.Prelude.Assoc.{nat_eq, ◌==◌, lookup, insert, lookup-insert, lookup-remove}
use expose.Prelude.Text.{Text, text_eq}
use expose.Common.Types.{TunnelProtocol, TunnelConfig, same_protocol}
use expose.Common.Message.{ConnectResponse}
use expose.Client.LocalProxy.{LocalProxy, new_proxy}
use expose.Client.TcpProxy.{TcpLocalProxy, new_tcp_proxy}
use expose.Client.Multi.{
  TunnelContext, MultiTunnelManager, new_context, new_manager, put_http, put_tcp,
  track_http_request, clear_http_request, track_tcp_connection, remove_tcp_connection,
}

-- A context has the proxy of its protocol and no other.
abbrev pub IsShaped : TunnelProtocol → Option LocalProxy → Option TcpLocalProxy → Type 0
IsShaped TunnelProtocol.http (some p) none = Unit
IsShaped TunnelProtocol.tcp none (some p) = Unit
IsShaped _ _ _ = ⊥

abbrev pub IsContext : ℕ → TunnelContext → Type 0
IsContext t c = (c.tunnel_id ≡ t) × IsShaped c.protocol c.http_proxy c.tcp_proxy

abbrev pub Serves : TunnelProtocol → MultiTunnelManager → ℕ → Type 0
Serves protocol m t = (c : TunnelContext) × (lookup t m.contexts ≡ some c) × (c.protocol ≡ protocol)

-- Every context stands under its own id; every name, request and connection leads to a context,
-- a request to one for HTTP and a connection to one for TCP.
pub record IsRouted (m : MultiTunnelManager) : Type 0 where
  pub own : (t : ℕ) (c : TunnelContext) → lookup t m.contexts ≡ some c → IsContext t c
  pub named :
      (name : Text) (t : ℕ)
      → lookup name m.subdomains ≡ some t
      → (c : TunnelContext) × (lookup t m.contexts ≡ some c)
  pub requests : (id t : ℕ) → lookup id m.http_requests ≡ some t → Serves TunnelProtocol.http m t
  pub connections :
      (id t : ℕ) → lookup id m.tcp_connections ≡ some t → Serves TunnelProtocol.tcp m t

pub new_manager-IsRouted : IsRouted new_manager
unfolding new_manager lookup
new_manager-IsRouted = record {
  own = λ t c h. absurd (cc);
  named = λ name t h. absurd (cc);
  requests = λ id t h. absurd (cc);
  connections = λ id t h. absurd (cc);
}

pub new_context-IsContext :
    (ack : ConnectResponse) (cfg : TunnelConfig) → IsContext ack.tunnel_id (new_context ack cfg)
unfolding new_context
new_context-IsContext ack cfg = (refl, shape ack.tunnel_protocol)
  where
    shape :
        (p : TunnelProtocol)
        → IsShaped p
            (if same_protocol p TunnelProtocol.http
              then some (new_proxy cfg.local_host cfg.local_port)
              else none)
            (if same_protocol p TunnelProtocol.tcp
              then some (new_tcp_proxy cfg.local_host cfg.local_port)
              else none)
    shape TunnelProtocol.http = tt
    shape TunnelProtocol.tcp = tt

-- A context that is replaced by one of the same id, protocol and shape.
module _ (m : MultiTunnelManager) (r : IsRouted m) (t : ℕ) (c c' : TunnelContext)
    (at : lookup t m.contexts ≡ some c) (same : c'.protocol ≡ c.protocol)
    (shaped : IsContext t c') where
  abbrev replaced : MultiTunnelManager
  replaced = record m { contexts = insert t c' m.contexts }

  Serves-replaced :
      (protocol : TunnelProtocol) (u : ℕ) → Serves protocol m u → Serves protocol replaced u
  Serves-replaced protocol u (d, e, p) = elim (Bool-cases (t == u)) [
    | inl q ↦ (
      c',
      ground (arith, lookup-insert t u c' m.contexts, q),
      ground (arith, nat_eq.eqb_iff t u, q, at, e),
    )
    | inr q ↦ (d, ground (arith, lookup-insert t u c' m.contexts, q), p)
  ]

  replaced-IsRouted : IsRouted replaced
  replaced-IsRouted = record {
    own = λ u d h. elim (Bool-cases (t == u)) [
      | inl q ↦
          let e : c' ≡ d = ground (arith, lookup-insert t u c' m.contexts, q, h) in
          let f : t ≡ u = (nat_eq.eqb_iff t u).0 q in
          subst (λ x. IsContext u x) e (subst (λ x. IsContext x c') f shaped)
      | inr q ↦ r.own u d (ground (arith, lookup-insert t u c' m.contexts, q, h))
    ];
    named = λ name u h. elim (Bool-cases (t == u)) [
      | inl q ↦ (c', ground (arith, lookup-insert t u c' m.contexts, q))
      | inr q ↦
          let (d, e) = r.named name u h in
          (d, ground (arith, lookup-insert t u c' m.contexts, q, e))
    ];
    requests = λ id u h. Serves-replaced TunnelProtocol.http u (r.requests id u h);
    connections = λ id u h. Serves-replaced TunnelProtocol.tcp u (r.connections id u h);
  }

-- A context of the table.
abbrev pub Known : MultiTunnelManager → TunnelContext → Type 0
Known m c = lookup c.tunnel_id m.contexts ≡ some c

IsShaped-http :
    (protocol : TunnelProtocol) (h : Option LocalProxy) (t : Option TcpLocalProxy)
    (p q : LocalProxy)
    → IsShaped protocol h t
    → h ≡ some p
    → (protocol ≡ TunnelProtocol.http) × IsShaped protocol (some q) t
IsShaped-http TunnelProtocol.http (some x) none p q s e = (refl, tt)
IsShaped-http TunnelProtocol.http none t p q s e = absurd (cc)
IsShaped-http TunnelProtocol.http (some x) (some y) p q s e = absurd s
IsShaped-http TunnelProtocol.tcp none t p q s e = absurd (cc)
IsShaped-http TunnelProtocol.tcp (some x) t p q s e = absurd s

IsShaped-tcp :
    (protocol : TunnelProtocol) (h : Option LocalProxy) (t : Option TcpLocalProxy)
    (p q : TcpLocalProxy)
    → IsShaped protocol h t
    → t ≡ some p
    → (protocol ≡ TunnelProtocol.tcp) × IsShaped protocol h (some q)
IsShaped-tcp TunnelProtocol.tcp none (some x) p q s e = (refl, tt)
IsShaped-tcp TunnelProtocol.tcp (some y) t p q s e = absurd s
IsShaped-tcp TunnelProtocol.tcp none none p q s e = absurd s
IsShaped-tcp TunnelProtocol.http h none p q s e = absurd (cc)
IsShaped-tcp TunnelProtocol.http none (some x) p q s e = absurd s
IsShaped-tcp TunnelProtocol.http (some y) (some x) p q s e = absurd s

module _ (m : MultiTunnelManager) (r : IsRouted m) (c : TunnelContext) (k : Known m c) where
  pub put_http-IsRouted : (p q : LocalProxy) → c.http_proxy ≡ some p → IsRouted (put_http c q m)
  put_http-IsRouted p q e =
      replaced-IsRouted m r c.tunnel_id c (record c { http_proxy = some q }) k refl
        (
          refl,
          (IsShaped-http c.protocol c.http_proxy c.tcp_proxy p q (r.own c.tunnel_id c k).1 e).1,
        )

  pub put_tcp-IsRouted : (p q : TcpLocalProxy) → c.tcp_proxy ≡ some p → IsRouted (put_tcp c q m)
  put_tcp-IsRouted p q e =
      replaced-IsRouted m r c.tunnel_id c (record c { tcp_proxy = some q }) k refl
        (refl, (IsShaped-tcp c.protocol c.http_proxy c.tcp_proxy p q (r.own c.tunnel_id c k).1 e).1)

  pub http_protocol : (p : LocalProxy) → c.http_proxy ≡ some p → c.protocol ≡ TunnelProtocol.http
  http_protocol p e =
      (IsShaped-http c.protocol c.http_proxy c.tcp_proxy p p (r.own c.tunnel_id c k).1 e).0

  pub tcp_protocol : (p : TcpLocalProxy) → c.tcp_proxy ≡ some p → c.protocol ≡ TunnelProtocol.tcp
  tcp_protocol p e =
      (IsShaped-tcp c.protocol c.http_proxy c.tcp_proxy p p (r.own c.tunnel_id c k).1 e).0

module _ (m : MultiTunnelManager) (r : IsRouted m) where
  pub track-IsRouted :
      (id t : ℕ) → Serves TunnelProtocol.http m t → IsRouted (track_http_request id t m)
  unfolding track_http_request
  track-IsRouted id t s = record {
    own = r.own;
    named = r.named;
    requests = λ j u h. elim (Bool-cases (id == j)) [
      | inl q ↦
          let e : t ≡ u = ground (arith, lookup-insert id j t m.http_requests, q, h) in
          subst (λ x. Serves TunnelProtocol.http m x) e s
      | inr q ↦ r.requests j u (ground (arith, lookup-insert id j t m.http_requests, q, h))
    ];
    connections = r.connections;
  }

  pub clear-IsRouted : (id : ℕ) → IsRouted (clear_http_request id m)
  unfolding clear_http_request
  clear-IsRouted id = record {
    own = r.own;
    named = r.named;
    requests = λ j u h. r.requests j u (ground (arith, lookup-remove id j m.http_requests, h));
    connections = r.connections;
  }

  pub track_tcp-IsRouted :
      (id t : ℕ) → Serves TunnelProtocol.tcp m t → IsRouted (track_tcp_connection id t m)
  unfolding track_tcp_connection
  track_tcp-IsRouted id t s = record {
    own = r.own;
    named = r.named;
    requests = r.requests;
    connections = λ j u h. elim (Bool-cases (id == j)) [
      | inl q ↦
          let e : t ≡ u = ground (arith, lookup-insert id j t m.tcp_connections, q, h) in
          subst (λ x. Serves TunnelProtocol.tcp m x) e s
      | inr q ↦ r.connections j u (ground (arith, lookup-insert id j t m.tcp_connections, q, h))
    ];
  }

  pub remove_tcp-IsRouted : (id : ℕ) → IsRouted (remove_tcp_connection id m)
  unfolding remove_tcp_connection
  remove_tcp-IsRouted id = record {
    own = r.own;
    named = r.named;
    requests = r.requests;
    connections =
        λ j u h. r.connections j u (ground (arith, lookup-remove id j m.tcp_connections, h));
  }
