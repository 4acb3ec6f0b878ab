-- ===== src/Server/Handshake.antt =====
-- expose-server/src/server.rs: the first part of `handle_socket`, from the client's `Connect` to the
-- acknowledgement. The id of the new tunnel, the random names, the outcome of the TCP listener and
-- the text of an error are parameters, and whether the channel to the client is closed when it is
-- acknowledged; an error that the source ignores when it sends a refusal is left out.
pub mod Failing
pub mod Opening
use expose.Prelude.{
  ℕ, ◌≡◌, refl, subst, ap, sym, ◌∙◌, inl, inr, Bool, true, false, List, [], ◌∷◌, Option, none, some,
  Result, ok, err, arith, if◌then◌else◌, unwrap_or, Bool-cases, Result-cases,
}
use expose.Prelude.Text.{Text, Bytes, text_eq, lit}
use expose.Prelude.Assoc.{eqb_refl}
use expose.Common.Types.{TunnelProtocol}
use expose.Common.Error.{ExposeError, ErrorCode, Fallible}
use expose.Common.Message.{Message, ConnectRequest, ConnectResponse}
use expose.Common.Response.{build}
use expose.Common.Version.{check, is_compatible, error_message, protocol_version}
use expose.Server.ActiveTunnel.{Governor, ActiveTunnel}
use expose.Server.Tunnels.{TunnelManager, Samples, allocate_subdomain, register_tunnel, get}
use expose.Server.Tunnels.Registry.{get-register_tunnel}
use expose.Server.Keys.{Crypto, validate_api_key}
use expose.Server.Config.{ServerConfig, SocketParser, effective_public_port}
use expose.Server.TcpRegistry.{TcpTunnelRegistry, register_listener}

pub record AppState (L : Type 0) : Type 0 where
  pub config : ServerConfig
  pub manager : TunnelManager L
  pub tcp_registry : TcpTunnelRegistry

-- How the writer task of a socket ends: none when it has not, and else what joining it gives.
abbrev pub WriterEnd : Type 0
WriterEnd = Option (Result Text (Fallible (Unit {0})))

-- What the handler of a socket takes from outside.
pub record Outside (L : Type 0) : Type 0 where
  pub governor : Governor L
  pub crypto : Crypto
  pub parse_socket : SocketParser
  pub hash_api_key : Text → Bytes
  pub samples : Samples
  pub tunnel_id : ℕ
  pub sender : ℕ
  pub listener : Result Text ℕ
  pub display : ExposeError → Text
  pub channel_closed : Bool
  pub writer : WriterEnd

-- The result, the messages to the client, and the state afterwards.
abbrev pub Shaken : Type 0 → Type 0
Shaken L = Fallible (ActiveTunnel L) × List Message × AppState L

module _ {L : Type 0} where
  abbrev pub refuse : ErrorCode → Text → ExposeError → AppState L → Shaken L
  refuse code message e s = (err e, Message.error code message ∷ [], s)

  -- The arms on an error of the registration.
  unfoldable pub refuse_registration : (ExposeError → Text) → ExposeError → AppState L → Shaken L
  refuse_registration display (ExposeError.capacity_exceeded r) s =
      refuse ErrorCode.rate_limit_exceeded (display (ExposeError.capacity_exceeded r))
        (ExposeError.capacity_exceeded r) s
  refuse_registration display (ExposeError.subdomain_taken n) s =
      refuse ErrorCode.subdomain_unavailable (display (ExposeError.subdomain_taken n))
        (ExposeError.subdomain_taken n) s
  refuse_registration display e s = (err e, [], s)

  -- The send of the acknowledgement, which fails on a closed channel.
  abbrev pub send_ack : (closed : Bool) → ActiveTunnel L → ConnectResponse → AppState L → Shaken L
  send_ack true handle ack s = (err (ExposeError.network (lit "websocket closed")), [], s)
  send_ack false handle ack s = (ok handle, Message.connect_ack ack ∷ [], s)

  unfoldable pub acknowledge :
      Outside L → ActiveTunnel L → Text → TunnelProtocol → Option ℕ → AppState L → Shaken L
  acknowledge o handle subdomain protocol public_port s =
      send_ack o.channel_closed handle
        (record (build o.tunnel_id subdomain s.manager.domain protocol s.config.tls_enabled
          public_port s.manager.limits) { message = some (lit "tunnel connected") })
        s

  -- The port that the tunnel is reached at: a TCP tunnel has a listener of its own.
  abbrev pub after_listener :
      Outside L → ActiveTunnel L → Text → AppState L → Fallible ℕ × TcpTunnelRegistry → Shaken L
  after_listener o handle subdomain s (err e, r) = (err e, [], record s { tcp_registry = r })
  after_listener o handle subdomain s (ok port, r) =
      acknowledge o handle subdomain TunnelProtocol.tcp (some port) (record s { tcp_registry = r })

  unfoldable pub open_tunnel :
      Outside L → ActiveTunnel L → Text → TunnelProtocol → AppState L → Shaken L
  unfolding acknowledge
  open_tunnel o handle subdomain TunnelProtocol.http s =
      acknowledge o handle subdomain TunnelProtocol.http
        (effective_public_port o.parse_socket s.config) s
  open_tunnel o handle subdomain TunnelProtocol.tcp s =
      after_listener o handle subdomain s (register_listener o.listener handle.id s.tcp_registry)

  abbrev pub after_registration :
      Outside L
      → Text
      → TunnelProtocol
      → AppState L
      → Fallible (ActiveTunnel L × TunnelManager L)
      → Shaken L
  after_registration o subdomain protocol s (err e) = refuse_registration o.display e s
  after_registration o subdomain protocol s (ok (handle, m)) =
      open_tunnel o handle subdomain protocol (record s { manager = m })

  abbrev pub after_allocation : Outside L → ConnectRequest → AppState L → Fallible Text → Shaken L
  after_allocation o request s (err e) = (err e, [], s)
  after_allocation o request s (ok subdomain) =
      after_registration o subdomain request.tunnel_protocol s (
        register_tunnel o.governor o.hash_api_key s.manager o.tunnel_id subdomain
          request.tunnel_protocol o.sender request.api_key)

  unfoldable pub handshake : Outside L → ConnectRequest → AppState L → Shaken L
  unfolding refuse_registration open_tunnel
  handshake o request s =
      let version_check = check request.protocol_version protocol_version in
      if is_compatible version_check
      then (if validate_api_key o.crypto s.config.api_keys request.api_key
          then after_allocation o request s
              (allocate_subdomain s.manager o.samples request.desired_subdomain)
          else refuse ErrorCode.authentication_failed (lit "invalid API key")
              (ExposeError.authentication (lit "invalid API key")) s)
      else refuse ErrorCode.protocol_mismatch
          (unwrap_or (error_message version_check) (lit "unsupported protocol version"))
          (ExposeError.version_mismatch request.protocol_version protocol_version) s
