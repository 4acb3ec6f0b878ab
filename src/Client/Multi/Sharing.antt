-- ===== src/Client/Multi/Sharing.antt =====
-- expose-client/src/multi.rs: several streamed requests over one connection, in the session's loop.
use expose.Prelude.{
  ℕ, ◌++◌, ◌≡◌, refl, ◌∙◌, ap, subst, List, [], ◌∷◌, Option, some, ok, err, keep, append_assoc,
  arith,
}
use expose.Prelude.Assoc.{nat_eq, lookup}
use expose.Prelude.Text.{Text, Bytes, text_eq}
use expose.Common.Message.{Message, Headers}
use expose.Common.Codec.{Bincode, decode}
use expose.Client.LocalProxy.{LocalProxy}
use expose.Client.TcpProxy.{SocketWrites}
use expose.Client.Session.{WsMessage}
use expose.Client.Multi.{
  TunnelContext, MultiTunnelManager, Standard, GivesValues, Effect, http_task, MultiStep,
  multi_message, multi_frame, start_in, http_of, host_header, host_label, http_context_by_headers,
}
use expose.Client.Multi.Routing.{IsRouted}
use expose.Client.Multi.Frames.{multi_message-IsRouted}
use expose.Client.Multi.Streams.{about, is_task}
use expose.Client.Multi.Opening.{
  MultiEvent, received, MultiEnded, following, after_multi, multi_loop,
}
use expose.Client.Multi.Delivery.{
  then_more, multi_messages, Streamed, delivered, tasks_next, own_start, oks,
}
use expose.Server.Proxy.Chunks.{concat}

-- The bytes of frames that decode to a list of messages.
abbrev pub Decode : Bincode → List Bytes → List Message → Type 0
Decode b [] [] = Unit
Decode b (y ∷ ys) (x ∷ xs) = (decode b y ≡ ok x) × Decode b ys xs
Decode b [] (x ∷ xs) = ⊥
Decode b (y ∷ ys) [] = ⊥

abbrev pub binary_then : List Bytes → List MultiEvent → List MultiEvent
binary_then [] rest = rest
binary_then (y ∷ ys) rest = received (ok (WsMessage.binary y)) ∷ binary_then ys rest

following_twice :
    (a c : List Effect) (e : MultiEnded) → following a (following c e) ≡ following (a ++ c) e
following_twice a c e = rw (append_assoc a c e.2) refl

after_then :
    (s : MultiStep) (k : MultiTunnelManager → MultiStep) (l l' : MultiTunnelManager → MultiEnded)
    → ((m : MultiTunnelManager) → (k m).0 ≡ ok tt → l m ≡ following (k m).2 (l' (k m).1))
    → (then_more s k).0 ≡ ok tt
    → after_multi s l ≡ following (then_more s k).2 (l' (then_more s k).1)
after_then (ok tt, m, effects) k l l' n h =
    ap (following effects) (n m h) ∙ following_twice effects (k m).2 (l' (k m).1)
after_then (err e, m, effects) k l l' n h = absurd (cc)

module _ (b : Bincode) (std : Standard) (writes : SocketWrites) where
  multi_loop-messages :
      (ys : List Bytes) (xs : List Message) (rest : List MultiEvent) (m : MultiTunnelManager)
      → Decode b ys xs
      → (multi_messages std writes xs m).0 ≡ ok tt
      → multi_loop b std writes (binary_then ys rest) m
        ≡ following
            (multi_messages std writes xs m).2
            (multi_loop b std writes rest (multi_messages std writes xs m).1)
  unfolding multi_loop multi_messages multi_frame
  multi_loop-messages [] [] rest m d h = refl
  multi_loop-messages [] (x ∷ xs) rest m d h = absurd d
  multi_loop-messages (y ∷ ys) [] rest m d h = absurd d
  multi_loop-messages (y ∷ ys) (x ∷ xs) rest m d h = rw d.0 (
      after_then (multi_message std writes x m) (λ m'. multi_messages std writes xs m')
        (λ m'. multi_loop b std writes (binary_then ys rest) m')
        (λ m'. multi_loop b std writes rest m') (λ m' h'. multi_loop-messages ys xs rest m' d.1 h')
        h)

has_proxy :
    (c : TunnelContext) (p : LocalProxy) → c.http_proxy ≡ some p → http_of (some c) ≡ some (c, p)
has_proxy c p e = ground (arith, e)

-- Requests that share a connection do not mix: let a streamed request start for a host whose first
-- label names a tunnel with an HTTP proxy, and let any other messages come between its chunks and its
-- end, none of which fails (other streamed requests, whole requests, TCP traffic of other tunnels).
-- Then the session's loop, after these frames, goes on with the events that follow, and among all
-- that it started there is exactly one task for the request: in the tunnel that the host names, with
-- the whole body in order. The routes are in order at the start, and a map's `values` gives only
-- values of the map.
pub multi_loop-delivers :
    (b : Bincode) (std : Standard) (writes : SocketWrites) (id : ℕ) (method path : Text)
    (headers : Headers) (content_length : Option ℕ) (host : Text) (t : ℕ) (c : TunnelContext)
    (p : LocalProxy) (xs : List Message) (ps ys : List Bytes) (rest : List MultiEvent)
    (m : MultiTunnelManager)
    → GivesValues std
    → IsRouted m
    → host_header std headers ≡ some host
    → lookup (host_label host) m.subdomains ≡ some t
    → lookup t m.contexts ≡ some c
    → c.http_proxy ≡ some p
    → Streamed id ps (keep (about id) xs)
    → (multi_messages std writes
        (Message.http_request_start id method path headers content_length ∷ xs)
        m).0
      ≡ ok tt
    → Decode b ys (Message.http_request_start id method path headers content_length ∷ xs)
    → (m' : MultiTunnelManager) × (effects : List Effect) × (multi_loop b std writes
          (binary_then ys rest)
          m
        ≡ following effects (multi_loop b std writes rest m'))
      × (keep (is_task id) effects ≡ http_task t id method path headers (concat ps) ∷ [])
unfolding multi_message http_context_by_headers
multi_loop-delivers b std writes id method path headers n host t c p xs ps ys rest m g r eh es ec ep
      s h d =
    let x : Message = Message.http_request_start id method path headers n in
    let found : http_of (http_context_by_headers std headers m) ≡ some (c, p) =
      rw (eh, es, ec) (has_proxy c p ep) in
    let step : multi_message std writes x m ≡ start_in id method path headers m (some (c, p)) =
      rw found refl in
    let own : c.tunnel_id ≡ t = (r.own t c ec).0 in
    (
      (multi_messages std writes (x ∷ xs) m).1,
      (multi_messages std writes (x ∷ xs) m).2,
      multi_loop-messages b std writes ys (x ∷ xs) rest m d h,
      tasks_next std g writes id x xs m h
          ∙ rw step (
              subst
                (λ u.
                  keep (is_task id)
                    (multi_messages std writes xs
                      (start_in id method path headers m (some (c, p))).1).2
                  ≡ http_task u id method path headers (concat ps) ∷ [])
                own
                (delivered std g writes id xs (start_in id method path headers m (some (c, p))).1
                  c.tunnel_id
                  (record { method = method; path = path; headers = headers; body = [] }) ps
                  (subst (λ z. IsRouted z.1) step (multi_message-IsRouted std g m r writes x))
                  (own_start id m r method path headers c p) s
                  (subst (λ z. (multi_messages std writes xs z.1).0 ≡ ok tt) step
                    (oks std g writes id x xs m h).1))),
    )
