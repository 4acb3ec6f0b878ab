-- ===== src/Client/Multi/Opened.antt =====
-- expose-client/src/multi.rs: what the opening of the tunnels leaves, and the routes in a whole
-- session.
use expose.Prelude.{
  ℕ, suc, ◌+◌, ◌≡◌, refl, subst, true, false, Bool, Bool-cases, Option-cases, inl, inr, List, [],
  ◌∷◌, Option, none, some, Result, ok, err, count, length, arith,
}
use expose.Prelude.Assoc.{nat_eq, ◌==◌, lookup, insert, lookup-insert}
use expose.Prelude.Text.{Text, text_eq}
use expose.Common.Types.{TunnelConfig}
use expose.Common.Message.{Message, ConnectResponse}
use expose.Common.Codec.{Bincode}
use expose.Client.TcpProxy.{SocketWrites, TcpLocalProxy, handle_connect}
use expose.Client.Session.{WsMessage}
use expose.Client.Multi.{
  TunnelContext, MultiTunnelManager, Standard, GivesValues, Effect, protocol, MultiStep,
  new_manager, register_context, new_context, multi_frame, tcp_of,
}
use expose.Client.Multi.Routing.{
  IsRouted, IsContext, new_manager-IsRouted, new_context-IsContext, put_tcp-IsRouted,
}
use expose.Client.Multi.Frames.{TcpFound, tcp_of-TcpFound, lookup-Known, multi_frame-IsRouted}
use expose.Client.Multi.Opening.{
  Stream, Reply, acknowledged, refused, answered, passed_over, multi_reply, Waited, after_reply,
  wait_for_connect_ack, Opened, after_ack, open_tunnels, MultiEvent, cancelled, received, connected,
  MultiEnded, after_multi, connect_done, multi_loop, connect_request,
}

-- Routed, and no request and no connection yet.
abbrev pub IsFresh : MultiTunnelManager → Type 0
IsFresh m = IsRouted m × (m.http_requests ≡ []) × (m.tcp_connections ≡ [])

lookup-empty : (id t : ℕ) (l : List (ℕ × ℕ)) → l ≡ [] → lookup id l ≡ some t → ⊥
unfolding lookup
lookup-empty id t [] e h = absurd (cc)
lookup-empty id t (x ∷ l) e h = absurd (cc)

other_name :
    (name key : Text) (new t : ℕ) (l : List (Text × ℕ))
    → (new == t) ≡ false
    → lookup name (insert key new l) ≡ some t
    → lookup name l ≡ some t
other_name name key new t l q h =
    ground (arith, lookup-insert key name new l, nat_eq.eqb_iff new t, q, h)

pub register_context-IsFresh :
    (std : Standard) (ack : ConnectResponse) (cfg : TunnelConfig) (m : MultiTunnelManager)
    → IsFresh m
    → IsFresh (register_context std ack cfg m)
unfolding register_context
register_context-IsFresh std ack cfg m (r, eh, et) = (
  record {
    own = λ t c h. elim (Bool-cases (ack.tunnel_id == t)) [
      | inl q ↦
          let e : new_context ack cfg ≡ c =
            ground (arith, lookup-insert ack.tunnel_id t (new_context ack cfg) m.contexts, q, h) in
          subst (λ x. IsContext t x) e
            (subst (λ x. IsContext x (new_context ack cfg)) ((nat_eq.eqb_iff ack.tunnel_id t).0 q)
              (new_context-IsContext ack cfg))
      | inr q ↦
          r.own t c
            (ground (arith, lookup-insert ack.tunnel_id t (new_context ack cfg) m.contexts, q, h))
    ];
    named = λ name t h. elim (Bool-cases (ack.tunnel_id == t)) [
      | inl q ↦ (
        new_context ack cfg,
        ground (arith, lookup-insert ack.tunnel_id t (new_context ack cfg) m.contexts, q),
      )
      | inr q ↦
          let (c, e) = r.named name t (
            other_name name (std.to_lowercase ack.assigned_subdomain) ack.tunnel_id t m.subdomains q
              h) in
          (c, ground (arith, lookup-insert ack.tunnel_id t (new_context ack cfg) m.contexts, q, e))
    ];
    requests = λ id t h. absurd (lookup-empty id t m.http_requests eh h);
    connections = λ id t h. absurd (lookup-empty id t m.tcp_connections et h);
  },
  eh,
  et,
)

after_ack-IsFresh :
    (std : Standard) (cfg : TunnelConfig) (request : Effect) (m : MultiTunnelManager) (w : Waited)
    (k : MultiTunnelManager → Stream → Opened)
    → IsFresh m
    → ((m' : MultiTunnelManager) (rest : Stream) → IsFresh m' → IsFresh (k m' rest).1)
    → IsFresh (after_ack std cfg request m w k).1
after_ack-IsFresh std cfg request m (ok ack, pongs, rest) k f n =
    n (register_context std ack cfg m) rest (register_context-IsFresh std ack cfg m f)
after_ack-IsFresh std cfg request m (err e, pongs, rest) k f n = f

module _ (b : Bincode) (std : Standard) (v : Text) (queue : TunnelConfig → Option Text) where
  open_tunnels-IsFresh :
      (cfgs : List TunnelConfig) (m : MultiTunnelManager) (stream : Stream)
      → IsFresh m
      → IsFresh (open_tunnels b std v queue cfgs m stream).1
  unfolding open_tunnels
  open_tunnels-IsFresh [] m stream f = f
  open_tunnels-IsFresh (cfg ∷ cfgs) m stream f = elim (Option-cases (queue cfg)) [
    | inr (e, h) ↦ rw (h, open_tunnels) f
    | inl h ↦
        rw (h, open_tunnels)
          (after_ack-IsFresh std cfg (protocol (Message.connect (connect_request v cfg))) m
            (wait_for_connect_ack b std stream) (λ m' rest. open_tunnels b std v queue cfgs m' rest)
            f (λ m' rest f'. open_tunnels-IsFresh cfgs m' rest f'))
  ]

connect_done-IsRouted :
    (m : MultiTunnelManager) (id : ℕ) (outcome : Result Text (Unit {0}))
    (o : Option (TunnelContext × TcpLocalProxy))
    → IsRouted m
    → TcpFound m o
    → IsRouted (connect_done id outcome m o).1
connect_done-IsRouted m id outcome none r f = r
connect_done-IsRouted m id outcome (some (c, p)) r (k, e) =
    put_tcp-IsRouted m r c k p (handle_connect id outcome p).1 e

after_multi-IsRouted :
    (s : MultiStep) (k : MultiTunnelManager → MultiEnded)
    → IsRouted s.1
    → ((m : MultiTunnelManager) → IsRouted m → IsRouted (k m).1)
    → IsRouted (after_multi s k).1
after_multi-IsRouted (ok _, m, effects) k r n = n m r
after_multi-IsRouted (err e, m, effects) k r n = r

module _ (b : Bincode) (std : Standard) (writes : SocketWrites) (g : GivesValues std) where
  loop-IsRouted :
      (events : List MultiEvent) (m : MultiTunnelManager)
      → IsRouted m
      → IsRouted (multi_loop b std writes events m).1
  unfolding multi_loop
  loop-IsRouted [] m r = r
  loop-IsRouted (cancelled ∷ events) m r = r
  loop-IsRouted (received (ok frame) ∷ events) m r =
      after_multi-IsRouted (multi_frame b std writes frame m)
        (λ m'. multi_loop b std writes events m') (multi_frame-IsRouted std g m r b writes frame)
        (λ m' r'. loop-IsRouted events m' r')
  loop-IsRouted (received (err e) ∷ events) m r = r
  loop-IsRouted (connected t id outcome ∷ events) m r =
      after_multi-IsRouted (connect_done id outcome m (tcp_of (lookup t m.contexts)))
        (λ m'. multi_loop b std writes events m')
        (connect_done-IsRouted m id outcome (tcp_of (lookup t m.contexts)) r
          (tcp_of-TcpFound m (lookup t m.contexts) (λ c h. lookup-Known std g m r t c h)))
        (λ m' r'. loop-IsRouted events m' r')

-- At every point of a session the routes are in order: after any opening of tunnels and any events
-- (frames that decode or not, local connections that open or fail), every context stands under its
-- own id with the proxy of its protocol, every public name leads to a context, every tracked request
-- to a context for HTTP, and every tracked connection to one for TCP. A map's `values` gives only
-- values of the map.
pub multi_loop-IsRouted :
    (b : Bincode) (std : Standard) (v : Text) (queue : TunnelConfig → Option Text)
    (cfgs : List TunnelConfig) (stream : Stream) (writes : SocketWrites) (events : List MultiEvent)
    → GivesValues std
    → let opened = open_tunnels b std v queue cfgs new_manager stream in
      IsRouted (multi_loop b std writes events opened.1).1
unfolding new_manager
multi_loop-IsRouted b std v queue cfgs stream writes events g =
    loop-IsRouted b std writes g events _
      (open_tunnels-IsFresh b std v queue cfgs new_manager stream
        (new_manager-IsRouted, refl, refl)).0

-- The frames of a stream that acknowledge a tunnel.
abbrev acknowledges : Reply → Bool
acknowledges (acknowledged response) = true
acknowledges _ = false

abbrev pub acks : Bincode → Standard → Stream → ℕ
acks b std = count (λ f. acknowledges (multi_reply b std f))

module _ (b : Bincode) (std : Standard) where
  Takes : Stream → Waited → Type 0
  Takes stream (ok ack, pongs, rest) = acks b std stream ≡ suc (acks b std rest)
  Takes stream (err e, pongs, rest) = Unit

  after_reply-Takes :
      (r : Reply) (f : Result Text WsMessage) (rest : Stream) (later : Waited)
      → multi_reply b std f ≡ r
      → Takes rest later
      → Takes (f ∷ rest) (after_reply r rest later)
  unfolding Takes
  after_reply-Takes (acknowledged a) f rest later e t = rw e refl
  after_reply-Takes (refused x) f rest later e t = tt
  after_reply-Takes (answered p) f rest (ok a, pongs, r) e t = rw e t
  after_reply-Takes (answered p) f rest (err x, pongs, r) e t = tt
  after_reply-Takes passed_over f rest (ok a, pongs, r) e t = rw e t
  after_reply-Takes passed_over f rest (err x, pongs, r) e t = tt

  wait-Takes : (stream : Stream) → Takes stream (wait_for_connect_ack b std stream)
  unfolding wait_for_connect_ack Takes
  wait-Takes [] = tt
  wait-Takes (f ∷ rest) =
      after_reply-Takes (multi_reply b std f) f rest (wait_for_connect_ack b std rest) refl
        (wait-Takes rest)

  after_ack-count :
      (cfg : TunnelConfig) (request : Effect) (m : MultiTunnelManager) (stream : Stream)
      (w : Waited) (n : ℕ) (k : MultiTunnelManager → Stream → Opened)
      → Takes stream w
      → ((m' : MultiTunnelManager) (rest : Stream)
          → (k m' rest).0 ≡ ok tt
          → acks b std rest ≡ n + acks b std (k m' rest).3)
      → (after_ack std cfg request m w k).0 ≡ ok tt
      → acks b std stream ≡ suc n + acks b std (after_ack std cfg request m w k).3
  unfolding Takes
  after_ack-count cfg request m stream (ok ack, pongs, rest) n k t ih h =
      omega (arith, t, ih (register_context std ack cfg m) rest h)
  after_ack-count cfg request m stream (err e, pongs, rest) n k t ih h = absurd (cc)

-- When the opening of the tunnels succeeds, the server acknowledged each of them: the frames that
-- were read held exactly one acknowledgement for each tunnel.
pub open_tunnels-acks :
    (b : Bincode) (std : Standard) (v : Text) (queue : TunnelConfig → Option Text)
    (cfgs : List TunnelConfig) (m : MultiTunnelManager) (stream : Stream)
    → (open_tunnels b std v queue cfgs m stream).0 ≡ ok tt
    → acks b std stream ≡ length cfgs + acks b std (open_tunnels b std v queue cfgs m stream).3
unfolding open_tunnels
open_tunnels-acks b std v queue [] m stream = λ h. omega arith
open_tunnels-acks b std v queue (cfg ∷ cfgs) m stream = elim (Option-cases (queue cfg)) [
  | inr (e, q) ↦ rw (q, open_tunnels) (λ h. absurd (cc))
  | inl q ↦
      rw (q, open_tunnels)
        (λ h.
          after_ack-count b std cfg (protocol (Message.connect (connect_request v cfg))) m stream
            (wait_for_connect_ack b std stream) (length cfgs)
            (λ m' rest. open_tunnels b std v queue cfgs m' rest) (wait-Takes b std stream)
            (λ m' rest h'. open_tunnels-acks b std v queue cfgs m' rest h') h)
]
