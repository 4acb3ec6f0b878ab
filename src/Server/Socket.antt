-- ===== src/Server/Socket.antt =====
-- expose-server/src/server.rs: the rest of `handle_socket`, from the acknowledgement to the end of
-- the socket. What arrives from the client is a list of events; its end is the end of the stream.
-- Between two arrivals no other task changes the state. The end of the writer task, for which the
-- function waits last, is a parameter. The pongs and the exporter's counts are left out.
use expose.Prelude.{
  ◌≡◌, ◌⊎◌, refl, ◌∙◌, inl, inr, ◌++◌, List, [], ◌∷◌, Option, none, some, ok, err, Result-cases,
}
use expose.Prelude.Assoc.{nat_eq, lookup-remove_self}
use expose.Prelude.Text.{Text, Bytes, text_eq}
use expose.Common.Error.{ExposeError, Fallible}
use expose.Common.Message.{Message}
use expose.Common.Codec.{Bincode, decode}
use expose.Server.ActiveTunnel.{ActiveTunnel}
use expose.Server.Pending.{Deliveries, fulfill, count_for_tunnel}
use expose.Server.Pending.Invariant
use expose.Server.Pending.Invariant.{fulfill-Inv}
use expose.Server.Pending.Sweeping.{close_lem}
use expose.Server.Tunnels.{get, close_tunnel, remove_tunnel}
use expose.Server.TcpRegistry.{
  SocketWrites, TcpTunnelRegistry, remove_listener, handle_client_ack, handle_client_data,
  handle_client_close,
}
use expose.Server.Handshake.{AppState, WriterEnd}

pub data Arrival : Type 0 where
  binary : Bytes → Arrival
  ping : Bytes → Arrival
  close : Arrival
  other : Arrival
  unreadable : Text → Arrival

-- Goes on, leaves the loop, or leaves the function with an error.
pub data Control : Type 0 where
  continue : Control
  break : Control
  fails : ExposeError → Control

module _ {L : Type 0} (b : Bincode) (writes : SocketWrites) (t : ActiveTunnel L) where
  abbrev with_registry : AppState L → Fallible TcpTunnelRegistry → Control × Deliveries × AppState L
  with_registry s (ok r) = (continue, [], record s { tcp_registry = r })
  with_registry s (err e) = (fails e, [], s)

  abbrev with_answer :
      AppState L
      → Deliveries × expose.Server.Pending.PendingStore
      → Control × Deliveries × AppState L
  with_answer s (out, store) =
      (continue, out, record s { manager = record s.manager { pending_store = store } })

  -- One message of the client.
  unfoldable pub serve_message : Message → AppState L → Control × Deliveries × AppState L
  serve_message (Message.http_response id status headers body) s =
      with_answer s (fulfill (Message.http_response id status headers body) s.manager.pending_store)
  serve_message (Message.disconnect reason) s = (break, [], s)
  serve_message (Message.error code message) s = (break, [], s)
  serve_message (Message.tcp_connect_ack connection_id success error) s = (
    continue,
    [],
    record s { tcp_registry = handle_client_ack t.id connection_id success s.tcp_registry },
  )
  serve_message (Message.tcp_data connection_id payload sequence) s =
      with_registry s (handle_client_data writes t.id connection_id payload s.tcp_registry)
  serve_message (Message.tcp_close connection_id reason) s = (
    continue,
    [],
    record s { tcp_registry = handle_client_close t.id connection_id s.tcp_registry },
  )
  serve_message m s = (continue, [], s)

  abbrev serve_decoded : AppState L → Fallible Message → Control × Deliveries × AppState L
  serve_decoded s (ok m) = serve_message m s
  serve_decoded s (err e) = (fails e, [], s)

  unfoldable pub serve_arrival : Arrival → AppState L → Control × Deliveries × AppState L
  unfolding serve_message
  serve_arrival (binary bytes) s = serve_decoded s (decode b bytes)
  serve_arrival (ping payload) s = (continue, [], s)
  serve_arrival close s = (break, [], s)
  serve_arrival other s = (continue, [], s)
  serve_arrival (unreadable e) s = (fails (ExposeError.network e), [], s)

  -- What follows the loop: the tunnel is closed and its names go.
  unfoldable pub clean_up : (subdomain : Text) → AppState L → Deliveries × AppState L
  unfolding close_tunnel
  clean_up subdomain s =
      let (out, m) = close_tunnel t s.manager in
      (
        out,
        record s {
          manager = remove_tunnel subdomain m;
          tcp_registry = remove_listener t.id s.tcp_registry;
        },
      )

  -- The result of the function, none while it waits for the writer; the deliveries, oldest first.
  abbrev pub Served : Type 0
  Served = Option (Fallible (Unit {0})) × Deliveries × AppState L

  -- `writer.await`, and what the writer returned.
  abbrev pub writer_result : WriterEnd → Option (Fallible (Unit {0}))
  writer_result none = none
  writer_result (some (err e)) = some (err (ExposeError.network e))
  writer_result (some (ok result)) = some result

  abbrev finished : WriterEnd → Deliveries × AppState L → Served
  finished writer (out, s) = (writer_result writer, out, s)

  abbrev earlier : Deliveries → Served → Served
  earlier out r = (r.0, out ++ r.1, r.2)

  -- What comes of an arrival: the next one, the end, or an error that leaves the function at once.
  abbrev after_arrival :
      WriterEnd
      → (subdomain : Text) → Control × Deliveries × AppState L
      → (AppState L → Served)
      → Served
  after_arrival writer subdomain (continue, out, s) k = earlier out (k s)
  after_arrival writer subdomain (break, out, s) k =
      earlier out (finished writer (clean_up subdomain s))
  after_arrival writer subdomain (fails e, out, s) k = (some (err e), out, s)

  unfoldable pub serve : WriterEnd → (subdomain : Text) → List Arrival → AppState L → Served
  unfolding serve_arrival clean_up
  serve writer subdomain [] s = finished writer (clean_up subdomain s)
  serve writer subdomain (a ∷ arrivals) s =
      after_arrival writer subdomain (serve_arrival a s) (λ s'. serve writer subdomain arrivals s')

  -- The pending store of a state is in order.
  abbrev pub Orderly : AppState L → Type 0
  Orderly s = Invariant.Inv s.manager.pending_config s.manager.pending_store

  -- The name holds no tunnel, and nobody waits for the tunnel.
  abbrev pub Gone : (subdomain : Text) → AppState L → Type 0
  Gone subdomain s' =
      (get s'.manager subdomain ≡ none) × (count_for_tunnel s'.manager.pending_store t.id ≡ 0)

  -- The tunnel is gone, or an error left the loop and the tunnels are the ones that they were.
  abbrev pub Ends : WriterEnd → (subdomain : Text) → AppState L → Served → Type 0
  Ends writer subdomain s (some (err e), out, s') =
      (s'.manager.tunnels ≡ s.manager.tunnels)
      ⊎ ((writer_result writer ≡ some (err e)) × Gone subdomain s')
  Ends writer subdomain s (some (ok _), out, s') =
      (writer_result writer ≡ some (ok tt)) × Gone subdomain s'
  Ends writer subdomain s (none, out, s') = (writer_result writer ≡ none) × Gone subdomain s'

  -- What an arrival leaves as it was.
  abbrev Keeps : AppState L → AppState L → Type 0
  Keeps s s' = (s'.manager.tunnels ≡ s.manager.tunnels) × Orderly s'

  serve_message-Keeps : (m : Message) (s : AppState L) → Orderly s → Keeps s (serve_message m s).2
  unfolding serve_message
  serve_message-Keeps (Message.http_response id status headers body) s v = (
    refl,
    fulfill-Inv s.manager.pending_config (Message.http_response id status headers body)
        s.manager.pending_store v,
  )
  serve_message-Keeps (Message.tcp_data connection_id payload sequence) s v =
      elim (Result-cases (handle_client_data writes t.id connection_id payload s.tcp_registry)) [
        | inl (r, e) ↦ rw e (refl, v)
        | inr (x, e) ↦ rw e (refl, v)
      ]
  serve_message-Keeps m s v = (refl, v)

  serve_arrival-Keeps : (a : Arrival) (s : AppState L) → Orderly s → Keeps s (serve_arrival a s).2
  unfolding serve_arrival
  serve_arrival-Keeps (binary bytes) s v = elim (Result-cases (decode b bytes)) [
    | inl (m, e) ↦ rw e (serve_message-Keeps m s v)
    | inr (x, e) ↦ rw e (refl, v)
  ]
  serve_arrival-Keeps a s v = (refl, v)

  module _ (writer : WriterEnd) (subdomain : Text) where
    written-Ends :
        (s s' : AppState L) (out : Deliveries) (r : Option (Fallible (Unit {0})))
        → writer_result writer ≡ r
        → Gone subdomain s'
        → Ends writer subdomain s (r, out, s')
    written-Ends s s' out none e g = (e, g)
    written-Ends s s' out (some (ok tt)) e g = (e, g)
    written-Ends s s' out (some (err x)) e g = inr (e, g)

    clean_up-Ends :
        (s s' : AppState L)
        → Orderly s'
        → Ends writer subdomain s (finished writer (clean_up subdomain s'))
    unfolding clean_up close_tunnel remove_tunnel get
    clean_up-Ends s s' v =
        written-Ends s (clean_up subdomain s').1 (clean_up subdomain s').0 (writer_result writer)
          refl
          (
            lookup-remove_self subdomain s'.manager.tunnels,
            (close_lem s'.manager.pending_config s'.manager.pending_store v t.id 0).2,
          )

    earlier-Ends :
        (s s' : AppState L) (out : Deliveries) (r : Served)
        → s'.manager.tunnels ≡ s.manager.tunnels
        → Ends writer subdomain s' r
        → Ends writer subdomain s (earlier out r)
    earlier-Ends s s' out (none, more, last) h e = e
    earlier-Ends s s' out (some (ok _), more, last) h e = e
    earlier-Ends s s' out (some (err x), more, last) h (inl e) = inl (e ∙ h)
    earlier-Ends s s' out (some (err x), more, last) h (inr e) = inr e

    after_arrival-Ends :
        (s : AppState L) (p : Control × Deliveries × AppState L) (k : AppState L → Served)
        → Keeps s p.2
        → ((s' : AppState L) → Orderly s' → Ends writer subdomain s' (k s'))
        → Ends writer subdomain s (after_arrival writer subdomain p k)
    after_arrival-Ends s (continue, out, s') k (h, v) e = earlier-Ends s s' out (k s') h (e s' v)
    after_arrival-Ends s (break, out, s') k (h, v) e =
        earlier-Ends s s' out (finished writer (clean_up subdomain s')) h (clean_up-Ends s' s' v)
    after_arrival-Ends s (fails x, out, s') k (h, v) e = inl h

    -- However the client behaves, a handler that returns without an error, or that still waits for
    -- its writer, has left no tunnel under its name and no request that waits for it. One that
    -- returns an error either left the loop with it, and then the tunnels are exactly as they were, or
    -- it had the error from its writer, and then name and waiters are gone too. The pending store is
    -- in order at the start.
    pub serve-Ends :
        (arrivals : List Arrival) (s : AppState L)
        → Orderly s
        → Ends writer subdomain s (serve writer subdomain arrivals s)
    unfolding serve
    serve-Ends [] s v = clean_up-Ends s s v
    serve-Ends (a ∷ arrivals) s v =
        after_arrival-Ends s (serve_arrival a s) (λ s'. serve writer subdomain arrivals s')
          (serve_arrival-Keeps a s v) (λ s' v'. serve-Ends arrivals s' v')
