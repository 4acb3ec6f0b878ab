-- ===== src/Common/Response.antt =====
-- expose-common/src/protocol.rs: `ConnectResponse::build` and the public URL of a tunnel.
use expose.Prelude.{ℕ, ◌++◌, Bool, not, [], Option, none, some, if◌then◌else◌, ◌==◌, is_empty}
use expose.Prelude.Text.{Text, lit, show}
use expose.Common.Types.{TunnelProtocol, RequestLimits}
use expose.Common.Message.{ConnectResponse}
use expose.Common.Version.{protocol_version}

unfoldable pub scheme : TunnelProtocol → Bool → Text
scheme TunnelProtocol.http tls_enabled = if tls_enabled then lit "https" else lit "http"
scheme TunnelProtocol.tcp tls_enabled = lit "tcp"

unfoldable pub port_suffix : TunnelProtocol → Bool → Option ℕ → Text
port_suffix TunnelProtocol.http tls_enabled none = []
port_suffix TunnelProtocol.http tls_enabled (some port) =
    if not (port == (if tls_enabled then 443 else 80)) then lit ":" ++ show port else []
port_suffix TunnelProtocol.tcp tls_enabled (some port) = lit ":" ++ show port
port_suffix TunnelProtocol.tcp tls_enabled none = []

unfoldable pub advertised_port : TunnelProtocol → Text → Option ℕ → Option ℕ
advertised_port TunnelProtocol.http suffix public_port =
    if is_empty suffix then none else public_port
advertised_port TunnelProtocol.tcp suffix public_port = public_port

unfoldable pub build :
    (tunnel_id : ℕ) (subdomain domain : Text) (tunnel_protocol : TunnelProtocol)
    (tls_enabled : Bool) (public_port : Option ℕ) (limits : RequestLimits)
    → ConnectResponse
unfolding scheme port_suffix advertised_port
build tunnel_id subdomain domain tunnel_protocol tls_enabled public_port limits =
    let suffix = port_suffix tunnel_protocol tls_enabled public_port in
    record {
      protocol_version = protocol_version;
      tunnel_id = tunnel_id;
      assigned_subdomain = subdomain;
      domain = domain;
      tunnel_protocol = tunnel_protocol;
      message = none;
      limits = limits;
      public_scheme = scheme tunnel_protocol tls_enabled;
      public_port = advertised_port tunnel_protocol suffix public_port;
      public_url =
          scheme tunnel_protocol tls_enabled
          ++ (lit "://" ++ (subdomain ++ (lit "." ++ (domain ++ suffix))));
    }
