-- ===== src/Common/Types.antt =====
-- expose-common/src/types.rs: tunnel metadata and the configuration of a tunnel.
use expose.Prelude.{ℕ, ◌++◌, Bool, true, Option, none, some}
use expose.Prelude.Text.{Text, lit, show}

pub data TunnelProtocol : Type 0 where
  http tcp : TunnelProtocol

-- The derived `PartialEq`.
abbrev pub same_protocol : TunnelProtocol → TunnelProtocol → Bool
same_protocol TunnelProtocol.http TunnelProtocol.http = true
same_protocol TunnelProtocol.tcp TunnelProtocol.tcp = true
same_protocol _ _ = mathlib.Core.Bool.false

pub record TcpTuningConfig : Type 0 where
  pub nodelay : Bool
  pub keepalive_enabled : Bool
  pub keepalive_time_secs : ℕ
  pub keepalive_interval_secs : ℕ
  pub send_buffer_size : Option ℕ
  pub recv_buffer_size : Option ℕ

unfoldable pub default_tuning : TcpTuningConfig
default_tuning = record {
  nodelay = true;
  keepalive_enabled = true;
  keepalive_time_secs = 60;
  keepalive_interval_secs = 10;
  send_buffer_size = some 262144;
  recv_buffer_size = some 262144;
}

pub record TunnelConfig : Type 0 where
  pub protocol : TunnelProtocol
  pub local_host : Text
  pub local_port : ℕ
  pub subdomain : Option Text
  pub server_url : Text
  pub api_key : Option Text
  pub reconnect_max_attempts : ℕ
  pub reconnect_base_delay_ms : ℕ
  pub tcp_tuning : TcpTuningConfig

unfoldable pub local_endpoint : TunnelConfig → Text
local_endpoint c = c.local_host ++ (lit ":" ++ show c.local_port)

unfoldable pub default_tunnel : TunnelConfig
default_tunnel = record {
  protocol = TunnelProtocol.http;
  local_host = lit "127.0.0.1";
  local_port = 8080;
  subdomain = none;
  server_url = lit "wss://tunnel.example.com";
  api_key = none;
  reconnect_max_attempts = 10;
  reconnect_base_delay_ms = 1000;
  tcp_tuning = default_tuning;
}

pub record RequestLimits : Type 0 where
  pub max_body_bytes : ℕ
  pub max_headers : ℕ

unfoldable pub default_limits : RequestLimits
default_limits = record { max_body_bytes = 10485760; max_headers = 64 }
