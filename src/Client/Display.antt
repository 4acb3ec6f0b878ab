-- ===== src/Client/Display.antt =====
-- expose-client/src/tunnel.rs: `compute_display_url`, the address that the client shows.
use expose.Prelude.{
  ℕ, ◌≡◌, ◌++◌, refl, ◌&&◌, Bool, true, false, not, [], Option, none, some, arith, if◌then◌else◌,
  ◌==◌, is_empty,
}
use expose.Prelude.Text.{Text, lit, show, text_beq}
use expose.Common.Types.{TunnelProtocol, RequestLimits}
use expose.Common.Message.{ConnectResponse}
use expose.Common.Response.{build}

unfoldable pub display_scheme : ConnectResponse → Text
display_scheme response =
    if is_empty response.public_scheme
    then elim response.tunnel_protocol [
      | TunnelProtocol.http ↦ lit "http"
      | TunnelProtocol.tcp ↦ lit "tcp"
    ]
    else response.public_scheme

unfoldable pub display_suffix : Text → Option ℕ → Text
display_suffix name none = []
display_suffix name (some port) =
    if text_beq name (lit "https") && not (port == 443)
    then lit ":" ++ show port
    else if text_beq name (lit "http") && not (port == 80)
    then lit ":" ++ show port
    else if text_beq name (lit "tcp")
    then lit ":" ++ show port
    else []

unfoldable pub compute_display_url : ConnectResponse → Text
unfolding display_scheme display_suffix
compute_display_url response =
    if not (is_empty response.public_url)
    then response.public_url
    else display_scheme response
      ++ (lit "://"
          ++ (response.assigned_subdomain
              ++ (lit "."
                  ++ (response.domain
                      ++ display_suffix (display_scheme response) response.public_port))))

abbrev pub without_url : ConnectResponse → ConnectResponse
without_url response = record response { public_url = [] }

-- The client shows the very address that the server built, and would work out the same address
-- from the other fields if the server had left the address out: scheme and port agree on all
-- branches (HTTP, HTTPS and TCP, a default port, another port and none).
pub compute_display_url-build :
    (tunnel_id : ℕ) (subdomain domain : Text) (protocol : TunnelProtocol) (tls : Bool)
    (port : Option ℕ) (limits : RequestLimits)
    → let response = build tunnel_id subdomain domain protocol tls port limits in
      (compute_display_url response ≡ response.public_url)
      × (compute_display_url (without_url response) ≡ response.public_url)
unfolding compute_display_url build lit text_beq
compute_display_url-build tunnel_id subdomain domain TunnelProtocol.http true none limits =
    (refl, refl)
compute_display_url-build tunnel_id subdomain domain TunnelProtocol.http true (some port) limits =
    ground arith
compute_display_url-build tunnel_id subdomain domain TunnelProtocol.http false none limits =
    (refl, refl)
compute_display_url-build tunnel_id subdomain domain TunnelProtocol.http false (some port) limits =
    ground arith
compute_display_url-build tunnel_id subdomain domain TunnelProtocol.tcp tls none limits =
    (refl, refl)
compute_display_url-build tunnel_id subdomain domain TunnelProtocol.tcp tls (some port) limits =
    (refl, refl)
