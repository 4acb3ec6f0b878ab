-- ===== src/Server/Handshake/Opening.antt =====
-- expose-server/src/server.rs: what holds when a handshake ends.
use expose.Prelude.{
  ℕ, ◌≡◌, refl, subst, ap, sym, ◌∙◌, inl, inr, true, List, [], ◌∷◌, Option, none, some, ok, err,
  arith, Bool-cases, Result-cases,
}
use expose.Prelude.Text.{Text, text_eq}
use expose.Prelude.Assoc.{eqb_refl}
use expose.Common.Types.{TunnelProtocol}
use expose.Common.Error.{ExposeError}
use expose.Common.Message.{Message, ConnectRequest, ConnectResponse}
use expose.Common.Response.{build}
use expose.Common.Version.{check, is_compatible, protocol_version}
use expose.Server.ActiveTunnel.{ActiveTunnel}
use expose.Server.Tunnels.{allocate_subdomain, register_tunnel, get}
use expose.Server.Tunnels.Registry.{get-register_tunnel}
use expose.Server.Keys.{validate_api_key}
use expose.Server.Config.{effective_public_port}
use expose.Server.TcpRegistry.{register_listener}
use expose.Server.Handshake.{
  AppState, Outside, Shaken, refuse_registration, acknowledge, open_tunnel, handshake,
}

module _ {L : Type 0} where
  -- What a tunnel that a handshake opened is, in the state before and after.
  abbrev pub Opened :
      Outside L → ConnectRequest → AppState L → ActiveTunnel L → List Message → AppState L → Type 0
  Opened o request s t messages s' =
      (is_compatible (check request.protocol_version protocol_version) ≡ true)
      × (validate_api_key o.crypto s.config.api_keys request.api_key ≡ true)
      × (t.id ≡ o.tunnel_id)
      × (allocate_subdomain s.manager o.samples request.desired_subdomain ≡ ok t.subdomain)
      × (get s.manager t.subdomain ≡ none)
      × (get s'.manager t.subdomain ≡ some t)
      × ((ack : ConnectResponse) × (messages ≡ Message.connect_ack ack ∷ [])
          × (ack.assigned_subdomain ≡ t.subdomain)
          × (ack.tunnel_id ≡ t.id))

  -- An opened tunnel is acknowledged, and the manager stays.
  abbrev Acknowledged :
      Outside L
      → ActiveTunnel L
      → Text
      → AppState L
      → ActiveTunnel L
      → List Message
      → AppState L
      → Type 0
  Acknowledged o handle subdomain s t messages s' =
      (handle ≡ t)
      × (s'.manager ≡ s.manager)
      × ((ack : ConnectResponse) × (messages ≡ Message.connect_ack ack ∷ [])
          × (ack.assigned_subdomain ≡ subdomain)
          × (ack.tunnel_id ≡ o.tunnel_id))

  -- An error says nothing of an acknowledgement.
  abbrev Fine : Outside L → ActiveTunnel L → Text → AppState L → Shaken L → Type 0
  Fine o handle subdomain s (ok t, messages, s') = Acknowledged o handle subdomain s t messages s'
  Fine o handle subdomain s (err e, messages, s') = Unit

  acknowledge-Fine :
      (o : Outside L) (handle : ActiveTunnel L) (subdomain : Text) (protocol : TunnelProtocol)
      (port : Option ℕ) (s : AppState L)
      → Fine o handle subdomain s (acknowledge o handle subdomain protocol port s)
  unfolding acknowledge build
  acknowledge-Fine o handle subdomain protocol port s = elim (Bool-cases o.channel_closed) [
    | inl c ↦ rw c tt
    | inr c ↦ rw c (refl, refl, (_, refl, refl, refl))
  ]

  settle :
      (o : Outside L) (handle t : ActiveTunnel L) (subdomain : Text) (protocol : TunnelProtocol)
      (port : Option ℕ) (s s' : AppState L) (messages : List Message)
      → acknowledge o handle subdomain protocol port s ≡ (ok t, messages, s')
      → Acknowledged o handle subdomain s t messages s'
  settle o handle t subdomain protocol port s s' messages h =
      subst (Fine o handle subdomain s) h (acknowledge-Fine o handle subdomain protocol port s)

  open_tunnel-Acknowledged :
      (o : Outside L) (handle t : ActiveTunnel L) (subdomain : Text) (protocol : TunnelProtocol)
      (s s' : AppState L) (messages : List Message)
      → open_tunnel o handle subdomain protocol s ≡ (ok t, messages, s')
      → Acknowledged o handle subdomain s t messages s'
  unfolding open_tunnel register_listener
  open_tunnel-Acknowledged o handle t subdomain TunnelProtocol.http s s' messages h =
      settle o handle t subdomain TunnelProtocol.http
        (effective_public_port o.parse_socket s.config) s s' messages h
  open_tunnel-Acknowledged o handle t subdomain TunnelProtocol.tcp s s' messages h =
      elim (Result-cases o.listener) [
        | inr (e, x) ↦ absurd (ground (arith, x, h))
        | inl (port, x) ↦
            let bound : AppState L = record s {
              tcp_registry = (register_listener (ok port) handle.id s.tcp_registry).1;
            } in
            let opened : open_tunnel o handle subdomain TunnelProtocol.tcp s
                ≡ acknowledge o handle subdomain TunnelProtocol.tcp (some port) bound =
              rw x refl in
            settle o handle t subdomain TunnelProtocol.tcp (some port) bound s' messages
              (sym opened ∙ h)
      ]

  refuse_registration_err :
      (display : ExposeError → Text) (e : ExposeError) (s : AppState L)
      → (refuse_registration display e s).0 ≡ err e
  unfolding refuse_registration
  refuse_registration_err display (ExposeError.capacity_exceeded r) s = refl
  refuse_registration_err display (ExposeError.subdomain_taken n) s = refl
  refuse_registration_err display e s = refl

  -- Past the allocation of a name.
  registered :
      (o : Outside L) (request : ConnectRequest) (s s' : AppState L) (t : ActiveTunnel L)
      (messages : List Message) (name : Text)
      → is_compatible (check request.protocol_version protocol_version) ≡ true
      → validate_api_key o.crypto s.config.api_keys request.api_key ≡ true
      → allocate_subdomain s.manager o.samples request.desired_subdomain ≡ ok name
      → handshake o request s ≡ (ok t, messages, s')
      → Opened o request s t messages s'
  unfolding handshake
  registered o request s s' t messages name c v a h =
      elim (Result-cases (
        register_tunnel o.governor o.hash_api_key s.manager o.tunnel_id name request.tunnel_protocol
          o.sender request.api_key)) [
            | inr (e, r) ↦
                let past : handshake o request s ≡ refuse_registration o.display e s =
                  rw (c, v, a, r) refl in
                let failed : err e ≡ ok t =
                  sym (refuse_registration_err o.display e s) ∙ ap (λ x. x.0) (sym past ∙ h) in
                absurd (cc)
            | inl ((handle, m), r) ↦
                let past : handshake o request s
                    ≡ open_tunnel o handle name request.tunnel_protocol (record s { manager = m }) =
                  rw (c, v, a, r) refl in
                let (same, kept, (ack, q, n, d)) =
                  open_tunnel-Acknowledged o handle t name request.tunnel_protocol
                    (record s { manager = m }) s' messages (sym past ∙ h) in
                let (id, named, free, now, _) =
                  get-register_tunnel o.governor o.hash_api_key s.manager o.tunnel_id name
                    request.tunnel_protocol o.sender request.api_key handle m name r in
                let renamed : t.subdomain ≡ name = ap (λ x. x.subdomain) (sym same) ∙ named in
                let same_id : t.id ≡ o.tunnel_id = ap (λ x. x.id) (sym same) ∙ id in
                let found : get m name ≡ some t =
                  now ∙ ground (arith, eqb_refl name, ap some same) in
                (
                  c,
                  v,
                  same_id,
                  a ∙ ap ok (sym renamed),
                  ap (get s.manager) renamed ∙ free,
                  ap (get s'.manager) renamed ∙ ap (λ x. get x name) kept ∙ found,
                  (ack, q, n ∙ sym renamed, d ∙ sym same_id),
                )
          ]

  -- A handshake that ends with a tunnel was made by a client of a compatible version with an accepted
  -- key; the tunnel has the new id and the allocated name, which no tunnel held before and which is
  -- now found; and the one message to the client is an acknowledgement with that name and id.
  pub handshake-Opened :
      (o : Outside L) (request : ConnectRequest) (s s' : AppState L) (t : ActiveTunnel L)
      (messages : List Message)
      → handshake o request s ≡ (ok t, messages, s')
      → Opened o request s t messages s'
  unfolding handshake
  handshake-Opened o request s s' t messages h =
      elim (Bool-cases (is_compatible (check request.protocol_version protocol_version))) [
        | inr c ↦ absurd (ground (arith, c, h))
        | inl c ↦ elim (Bool-cases (validate_api_key o.crypto s.config.api_keys request.api_key)) [
          | inr v ↦ absurd (ground (arith, c, v, h))
          | inl v ↦
              elim (Result-cases
                (allocate_subdomain s.manager o.samples request.desired_subdomain)) [
                  | inr (e, a) ↦ absurd (ground (arith, c, v, a, h))
                  | inl (name, a) ↦ registered o request s s' t messages name c v a h
                ]
        ]
      ]
