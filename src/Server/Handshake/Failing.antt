-- ===== src/Server/Handshake/Failing.antt =====
-- expose-server/src/server.rs: what a handshake that fails leaves behind.
use expose.Prelude.{
  ℕ, ◌≡◌, ◌⊎◌, refl, ◌∙◌, inl, inr, Bool, true, false, List, [], Option, some, none, Result, ok,
  err, arith, Bool-cases, Result-cases,
}
use expose.Prelude.Text.{Text, text_eq, lit}
use expose.Prelude.Assoc.{eqb_refl}
use expose.Common.Types.{TunnelProtocol}
use expose.Common.Error.{ExposeError}
use expose.Common.Message.{Message, ConnectRequest, ConnectResponse}
use expose.Common.Version.{check, is_compatible, protocol_version}
use expose.Server.ActiveTunnel.{ActiveTunnel}
use expose.Server.Config.{effective_public_port}
use expose.Server.Keys.{validate_api_key}
use expose.Server.TcpRegistry.{register_listener}
use expose.Server.Tunnels.{TunnelManager, allocate_subdomain, register_tunnel, get}
use expose.Server.Tunnels.Registry.{get-register_tunnel}
use expose.Server.Handshake.{
  AppState, Outside, Shaken, refuse_registration, send_ack, acknowledge, after_listener,
  open_tunnel, handshake,
}

module _ {L : Type 0} (o : Outside L) (request : ConnectRequest) (s : AppState L) where
  -- The two errors after the registration: the listener of a TCP tunnel, and the acknowledgement.
  abbrev pub IsLate : ExposeError → Type 0
  IsLate e =
      ((request.tunnel_protocol ≡ TunnelProtocol.tcp)
        × ((x : Text) × (o.listener ≡ err x) × (e ≡ ExposeError.network x)))
      ⊎ ((o.channel_closed ≡ true) × (e ≡ ExposeError.network (lit "websocket closed")))

  -- The client hears nothing, and the new tunnel stays under the name that was free before.
  abbrev pub Stays : List Message → AppState L → Type 0
  Stays messages s' =
      (name : Text) × (t : ActiveTunnel L) × (allocate_subdomain s.manager o.samples
          request.desired_subdomain
        ≡ ok name)
      × (get s.manager name ≡ none)
      × (get s'.manager name ≡ some t)
      × (messages ≡ [])

  abbrev pub Leaves : Shaken L → Type 0
  Leaves (ok t, messages, s') = Unit
  Leaves (err e, messages, s') = (s' ≡ s) ⊎ (IsLate e × Stays messages s')

  module _ (name : Text) (t : ActiveTunnel L) (m : TunnelManager L)
      (a : allocate_subdomain s.manager o.samples request.desired_subdomain ≡ ok name)
      (free : get s.manager name ≡ none) (now : get m name ≡ some t) where
    sent-Leaves :
        (closed : Bool) (ack : ConnectResponse) (s' : AppState L)
        → o.channel_closed ≡ closed
        → get s'.manager name ≡ some t
        → Leaves (send_ack closed t ack s')
    sent-Leaves true ack s' c now' = inr (inr (c, refl), (name, t, a, free, now', refl))
    sent-Leaves false ack s' c now' = tt

    acknowledge-Leaves :
        (protocol : TunnelProtocol) (port : Option ℕ) (s' : AppState L)
        → get s'.manager name ≡ some t
        → Leaves (acknowledge o t name protocol port s')
    unfolding acknowledge
    acknowledge-Leaves protocol port s' now' = sent-Leaves o.channel_closed _ s' refl now'

    listened-Leaves :
        (l : Result Text ℕ)
        → o.listener ≡ l
        → request.tunnel_protocol ≡ TunnelProtocol.tcp
        → Leaves (
            after_listener o t name
              (record s { manager = m })
              (register_listener l t.id s.tcp_registry))
    unfolding register_listener
    listened-Leaves (err x) e p = inr (inl (p, (x, e, refl)), (name, t, a, free, now, refl))
    listened-Leaves (ok port) e p =
        acknowledge-Leaves TunnelProtocol.tcp (some port)
          (record s {
            manager = m;
            tcp_registry = (register_listener (ok port) t.id s.tcp_registry).1;
          })
          now

    open_tunnel-Leaves :
        (protocol : TunnelProtocol)
        → request.tunnel_protocol ≡ protocol
        → Leaves (open_tunnel o t name protocol (record s { manager = m }))
    unfolding open_tunnel
    open_tunnel-Leaves TunnelProtocol.http p =
        acknowledge-Leaves TunnelProtocol.http (effective_public_port o.parse_socket s.config)
          (record s { manager = m }) now
    open_tunnel-Leaves TunnelProtocol.tcp p = listened-Leaves o.listener refl p

  refused-Leaves :
      (display : ExposeError → Text) (e : ExposeError) → Leaves (refuse_registration display e s)
  unfolding refuse_registration
  refused-Leaves display (ExposeError.capacity_exceeded r) = inl refl
  refused-Leaves display (ExposeError.subdomain_taken n) = inl refl
  refused-Leaves display e = inl refl

  allocated-Leaves :
      (name : Text)
      → is_compatible (check request.protocol_version protocol_version) ≡ true
      → validate_api_key o.crypto s.config.api_keys request.api_key ≡ true
      → allocate_subdomain s.manager o.samples request.desired_subdomain ≡ ok name
      → Leaves (handshake o request s)
  unfolding handshake
  allocated-Leaves name c v a =
      elim (Result-cases (
        register_tunnel o.governor o.hash_api_key s.manager o.tunnel_id name request.tunnel_protocol
          o.sender request.api_key)) [
            | inr (e, r) ↦ rw (c, v, a, r) (refused-Leaves o.display e)
            | inl ((t, m), r) ↦
                let (_, _, free, now, _) =
                  get-register_tunnel o.governor o.hash_api_key s.manager o.tunnel_id name
                    request.tunnel_protocol o.sender request.api_key t m name r in
                let found : get m name ≡ some t = now ∙ ground (arith, eqb_refl name) in
                rw (c, v, a, r)
                  (open_tunnel-Leaves name t m a free found request.tunnel_protocol refl)
          ]

-- A handshake that fails either leaves the whole state as it was, or it fails after the registration,
-- because the listener of a TCP tunnel could not be bound or the channel to the client was closed:
-- then the client hears nothing, and the new tunnel stays registered under its name, which no
-- tunnel held before.
pub handshake-Leaves :
    {L : Type 0} (o : Outside L) (request : ConnectRequest) (s : AppState L)
    → Leaves o request s (handshake o request s)
unfolding handshake
handshake-Leaves o request s =
    elim (Bool-cases (is_compatible (check request.protocol_version protocol_version))) [
      | inr c ↦ rw c (inl refl)
      | inl c ↦ elim (Bool-cases (validate_api_key o.crypto s.config.api_keys request.api_key)) [
        | inr v ↦ rw (c, v) (inl refl)
        | inl v ↦
            elim (Result-cases (allocate_subdomain s.manager o.samples request.desired_subdomain)) [
              | inr (e, a) ↦ rw (c, v, a) (inl refl)
              | inl (name, a) ↦ allocated-Leaves o request s name c v a
            ]
      ]
    ]
