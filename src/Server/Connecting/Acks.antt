-- ===== src/Server/Connecting/Acks.antt =====
-- expose-server/src/server.rs: how many acknowledgements one socket gets.
use expose.Prelude.{
  ◌≤◌, true, false, Bool, Bool-cases, List, Option, some, ℕ, ok, err, inl, inr, Result-cases, count,
  arith,
}
use expose.Prelude.Text.{Text}
use expose.Common.Types.{TunnelProtocol}
use expose.Common.Error.{ExposeError}
use expose.Common.Message.{Message, ConnectRequest}
use expose.Common.Codec.{Bincode}
use expose.Common.Version.{check, is_compatible, protocol_version}
use expose.Server.ActiveTunnel.{ActiveTunnel}
use expose.Server.Keys.{validate_api_key}
use expose.Server.Config.{effective_public_port}
use expose.Server.Tunnels.{allocate_subdomain, register_tunnel}
use expose.Server.TcpRegistry.{SocketWrites, register_listener}
use expose.Server.Handshake.{
  AppState, Outside, Shaken, refuse_registration, acknowledge, open_tunnel, handshake,
}
use expose.Server.Socket.{Arrival}
use expose.Server.Connecting.{Connected, wait_for_connect, handle_socket}

abbrev pub is_ack : Message → Bool
is_ack (Message.connect_ack ack) = true
is_ack _ = false

module _ {L : Type 0} where
  abbrev AckedOnce : Shaken L → Type 0
  AckedOnce h = count is_ack h.1 ≤ 1

  refused-AckedOnce :
      (display : ExposeError → Text) (e : ExposeError) (s : AppState L)
      → AckedOnce (refuse_registration display e s)
  unfolding refuse_registration
  refused-AckedOnce display (ExposeError.capacity_exceeded r) s = omega arith
  refused-AckedOnce display (ExposeError.subdomain_taken n) s = omega arith
  refused-AckedOnce display e s = omega arith

  acked-AckedOnce :
      (o : Outside L) (handle : ActiveTunnel L) (name : Text) (protocol : TunnelProtocol)
      (port : Option ℕ) (s : AppState L)
      → AckedOnce (acknowledge o handle name protocol port s)
  unfolding acknowledge
  acked-AckedOnce o handle name protocol port s = elim (Bool-cases o.channel_closed) [
    | inl c ↦ rw c (omega arith)
    | inr c ↦ rw c (omega arith)
  ]

  opened-AckedOnce :
      (o : Outside L) (handle : ActiveTunnel L) (name : Text) (protocol : TunnelProtocol)
      (s : AppState L)
      → AckedOnce (open_tunnel o handle name protocol s)
  unfolding open_tunnel register_listener
  opened-AckedOnce o handle name TunnelProtocol.http s =
      acked-AckedOnce o handle name TunnelProtocol.http
        (effective_public_port o.parse_socket s.config) s
  opened-AckedOnce o handle name TunnelProtocol.tcp s = elim (Result-cases o.listener) [
    | inl (port, e) ↦ rw e (
        acked-AckedOnce o handle name TunnelProtocol.tcp (some port)
          (record s { tcp_registry = (register_listener (ok port) handle.id s.tcp_registry).1 }))
    | inr (x, e) ↦ rw e (omega arith)
  ]

  handshake-AckedOnce :
      (o : Outside L) (r : ConnectRequest) (s : AppState L) → AckedOnce (handshake o r s)
  unfolding handshake
  handshake-AckedOnce o r s =
      elim (Bool-cases (is_compatible (check r.protocol_version protocol_version))) [
        | inr c ↦ rw c (omega arith)
        | inl c ↦ elim (Bool-cases (validate_api_key o.crypto s.config.api_keys r.api_key)) [
          | inr v ↦ rw (c, v) (omega arith)
          | inl v ↦
              elim (Result-cases (allocate_subdomain s.manager o.samples r.desired_subdomain)) [
                | inr (e, a) ↦ rw (c, v, a) (omega arith)
                | inl (name, a) ↦
                    elim (Result-cases (
                      register_tunnel o.governor o.hash_api_key s.manager o.tunnel_id name
                        r.tunnel_protocol o.sender r.api_key)) [
                          | inr (e, g) ↦ rw (c, v, a, g) (refused-AckedOnce o.display e s)
                          | inl ((handle, m), g) ↦
                              rw (c, v, a, g)
                                (opened-AckedOnce o handle name r.tunnel_protocol
                                  (record s { manager = m }))
                        ]
              ]
        ]
      ]

  -- A socket is acknowledged once at most, however many requests its client sends.
  pub handle_socket-acks :
      (b : Bincode) (writes : SocketWrites) (o : Outside L) (shown : Text) (arrivals : List Arrival)
      (s : AppState L)
      → count is_ack (handle_socket b writes o shown arrivals s).1 ≤ 1
  unfolding handle_socket
  handle_socket-acks b writes o shown arrivals s = connected (wait_for_connect b shown arrivals)
    where
      served :
          (rest : List Arrival) (h : Shaken L)
          → AckedOnce h
          → count is_ack (expose.Server.Connecting.after_handshake b writes o.writer rest h).1 ≤ 1
      served rest (err e, messages, s') k = k
      served rest (ok t, messages, s') k = k

      connected :
          (c : Connected)
          → count is_ack (expose.Server.Connecting.after_connect b writes o s c).1 ≤ 1
      connected (err e, pongs, rest) = omega arith
      connected (ok r, pongs, rest) = served rest (handshake o r s) (handshake-AckedOnce o r s)
