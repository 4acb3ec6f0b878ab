-- ===== src/Tests/Sockets.antt =====
-- The theorems on the socket of a client at concrete inputs.
use expose.Prelude.{false, some, ok, Bool, ◌≡◌, refl, [], ◌∷◌, none, some, ok, err}
use expose.Prelude.Assoc.{lookup, insert, nat_eq}
use expose.Prelude.Text.{
  text_eq, text_beq, lit, trim, trim_start, is_whitespace, to_ascii_lowercase,
  is_ascii_alphanumeric, is_ascii_digit, as_bytes,
}
use expose.Common.Types.{TunnelProtocol}
use expose.Common.Message.{ConnectRequest}
use expose.Common.Subdomain.{sanitize_subdomain, starts_with_char, ends_with_char}
use expose.Common.Version.{check, is_compatible, versions_compatible, major_version}
use expose.Server.ActiveTunnel.{ActiveTunnel}
use expose.Server.Tunnels.{
  TunnelManager, new_manager, register_tunnel, get, new_handle, allocate_subdomain, key_exhausted,
  count_tunnels_for_key,
}
use expose.Server.Keys.{validate_api_key}
use expose.Server.Config.{default_config}
use expose.Server.TcpRegistry.{SocketWrites}
use expose.Server.Handshake.{AppState, Outside, handshake, open_tunnel, acknowledge}
use expose.Server.Handshake.Opening.{Opened, handshake-Opened}
use expose.Server.Handshake.Failing.{Leaves, handshake-Leaves}
use expose.Server.Socket.{Arrival, ping, Ends, serve, serve-Ends}
use expose.Tests.Shared.{toy}
use expose.Tests.Manager.{one_each, no_hash, empty_manager, busy, app, eight, store-Inv}
use expose.Tests.Proxying.{plain, no_sockets}

program : Unit {0}
unfolding lit expose.Common.Subdomain.Filter.allowed trim trim_start is_whitespace
    to_ascii_lowercase is_ascii_alphanumeric is_ascii_digit as_bytes text_beq sanitize_subdomain
    starts_with_char ends_with_char lookup insert check is_compatible versions_compatible
    major_version new_manager register_tunnel get new_handle allocate_subdomain key_exhausted
    count_tunnels_for_key validate_api_key
program = tt

abbrev pub state : AppState Bool
state = record {
  config = default_config;
  manager = empty_manager;
  tcp_registry = record { tunnels = [] };
}

abbrev pub outside : Outside Bool
outside = record {
  governor = one_each;
  crypto = plain;
  parse_socket = no_sockets;
  hash_api_key = no_hash;
  samples = eight;
  tunnel_id = 7;
  sender = 1;
  listener = err (lit "address in use");
  display = λ e. [];
  channel_closed = false;
  writer = some (ok (ok tt));
}

abbrev asks : TunnelProtocol → ConnectRequest
asks protocol = record {
  protocol_version = 201;
  api_key = none;
  desired_subdomain = some (lit "App");
  tunnel_protocol = protocol;
  client_version = lit "0.1.0";
  metadata = none;
}

abbrev pub opened : TunnelProtocol → ActiveTunnel Bool
opened protocol = new_handle one_each empty_manager 7 (lit "app") protocol 1 none

abbrev with_tunnel : TunnelProtocol → TunnelManager Bool
with_tunnel protocol = record empty_manager { tunnels = (lit "app", opened protocol) ∷ [] }

shaken :
    let result = handshake outside (asks TunnelProtocol.http) state in
    result ≡ (ok (opened TunnelProtocol.http), result.1, result.2)
unfolding program handshake open_tunnel acknowledge
shaken = refl

handshake-Opened_example :
    let result = handshake outside (asks TunnelProtocol.http) state in
    Opened outside (asks TunnelProtocol.http) state (opened TunnelProtocol.http) result.1 result.2
handshake-Opened_example =
    handshake-Opened outside (asks TunnelProtocol.http) state
      (handshake outside (asks TunnelProtocol.http) state).2 (opened TunnelProtocol.http)
      (handshake outside (asks TunnelProtocol.http) state).1 shaken

handshake-Leaves_example :
    Leaves outside
      (asks TunnelProtocol.tcp)
      state
      (handshake outside (asks TunnelProtocol.tcp) state)
handshake-Leaves_example = handshake-Leaves outside (asks TunnelProtocol.tcp) state

abbrev serving : AppState Bool
serving = record state { manager = busy }

abbrev all_work : SocketWrites
all_work id bytes = none

serve-Ends_example :
    Ends toy all_work app outside.writer
      (lit "app")
      serving
      (serve toy all_work app outside.writer (lit "app") (ping [] ∷ Arrival.close ∷ []) serving)
unfolding new_manager
serve-Ends_example =
    serve-Ends toy all_work app outside.writer (lit "app") (ping [] ∷ Arrival.close ∷ []) serving
      store-Inv
