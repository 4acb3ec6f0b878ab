-- ===== src/Server/Config.antt =====
-- expose-server/src/config.rs: `ServerConfig` and what `load` does with a configuration that was
-- read from a file. Reading the file and its TOML, the environment and the parser of socket
-- addresses are parameters: the configuration read, whether `EXPOSE_ENV` is production, and the
-- port of an address that the parser takes. The settings of TCP tuning, metrics and TCP forwarding,
-- which `load` leaves alone, are left out; an address of the admin interface is its text.
pub mod Loading
use expose.Prelude.{
  ℕ, ◌*◌, ◌≡◌, refl, subst, Bool, true, false, not, ◌&&◌, ◌⊎◌, inl, inr, List, [], Option, none,
  some, Result, ok, err, is_some, is_empty, if◌then◌else◌, max, arith, Bool-cases, Result-cases,
  ok_or, unwrap_or, ◌>>=◌, ◌>>◌,
}
use expose.Prelude.Assoc.{nat_eq, ◌==◌}
use expose.Prelude.Text.{Text, lit, trim}
use expose.Common.Types.{RequestLimits}
use expose.Common.Error.{ExposeError, ConfigError, Fallible}
use expose.Server.Keys.{SecureApiKey, AdminConfig, validate_admin}
use expose.Server.Pending.{PendingRequestConfig}
use expose.Server.Proxy.Streaming.{StreamingConfig}

-- `bind.parse::<SocketAddr>()`: the port of the address, if it is one.
abbrev pub SocketParser : Type 0
SocketParser = Text → Option ℕ

pub record ResourceLimits : Type 0 where
  pub max_tunnels : ℕ
  pub max_tunnels_per_key : ℕ
  pub max_pending_requests : ℕ

pub record ServerConfig : Type 0 where
  pub bind_address : Option Text
  pub https_bind_address : Option Text
  pub tls_enabled : Bool
  pub tls_cert_path : Option Text
  pub tls_key_path : Option Text
  pub admin_bind : Option Text
  pub domain : Text
  pub rate_limit_requests_per_minute : ℕ
  pub rate_limit_burst_size : ℕ
  pub api_keys : List SecureApiKey
  pub request_body_limit_bytes : ℕ
  pub request_timeout_secs : ℕ
  pub admin : AdminConfig
  pub pending_requests : PendingRequestConfig
  pub streaming : StreamingConfig
  pub limits : ResourceLimits
  pub legacy_max_tunnels : Option ℕ

abbrev pub default_max_pending : ℕ
default_max_pending = 10000

-- Durations are in milliseconds.
abbrev pub default_pending : PendingRequestConfig
default_pending = record {
  max_per_tunnel = 100;
  max_global = 10000;
  sweep_interval = 1000;
  default_timeout = 30000;
}

abbrev pub default_streaming : StreamingConfig
default_streaming = record {
  enabled = true;
  threshold_bytes = 1024 * 1024;
  chunk_size_bytes = 64 * 1024;
  max_body_bytes = 100 * 1024 * 1024;
}

abbrev pub default_admin : AdminConfig
default_admin = record {
  token = none;
  insecure_admin = false;
  bind_address = none;
  rate_limit_per_minute = 60;
}

abbrev pub default_limits : ResourceLimits
default_limits = record {
  max_tunnels = 1000;
  max_tunnels_per_key = 0;
  max_pending_requests = 10000;
}

abbrev pub default_config : ServerConfig
default_config = record {
  bind_address = some (lit "127.0.0.1:8080");
  https_bind_address = none;
  tls_enabled = false;
  tls_cert_path = none;
  tls_key_path = none;
  admin_bind = some (lit "127.0.0.1:9090");
  domain = lit "tunnel.localhost";
  rate_limit_requests_per_minute = 120;
  rate_limit_burst_size = 10;
  api_keys = [];
  request_body_limit_bytes = 10 * 1024 * 1024;
  request_timeout_secs = 30;
  admin = default_admin;
  pending_requests = default_pending;
  streaming = default_streaming;
  limits = default_limits;
  legacy_max_tunnels = none;
}

-- An address that is blank counts as none.
abbrev pub not_blank : Option Text → Option Text
not_blank none = none
not_blank (some addr) = if is_empty (trim addr) then none else some addr

unfoldable pub http_bind_address : ServerConfig → Option Text
http_bind_address cfg = not_blank cfg.bind_address

unfoldable pub https_bind_address_of : ServerConfig → Option Text
https_bind_address_of cfg = not_blank cfg.https_bind_address

unfoldable pub tls_paths : ServerConfig → Fallible (Text × Text)
tls_paths cfg = do
  cert ← ok_or cfg.tls_cert_path (
      ExposeError.config
        (ConfigError.validation (lit "tls_cert_path must be set when tls_enabled = true")))
  key ← ok_or cfg.tls_key_path (
      ExposeError.config
        (ConfigError.validation (lit "tls_key_path must be set when tls_enabled = true")))
  ok (cert, key)

abbrev pub parse_port : SocketParser → Option Text → Option ℕ
parse_port parse none = none
parse_port parse (some addr) = parse addr

unfoldable pub effective_public_port : SocketParser → ServerConfig → Option ℕ
unfolding https_bind_address_of http_bind_address
effective_public_port parse cfg =
    if cfg.tls_enabled
    then parse_port parse (https_bind_address_of cfg)
    else parse_port parse (http_bind_address cfg)

unfoldable pub request_limits : ServerConfig → RequestLimits
request_limits cfg = record { max_body_bytes = cfg.request_body_limit_bytes; max_headers = 64 }

unfoldable pub rate_limit_config : ServerConfig → ℕ × ℕ
rate_limit_config cfg = (max cfg.rate_limit_requests_per_minute 1, max cfg.rate_limit_burst_size 1)

-- The steps of `load`.
unfoldable pub check_tls : ServerConfig → Fallible (Unit {0})
unfolding https_bind_address_of tls_paths
check_tls cfg =
    if cfg.tls_enabled
    then (if is_some (https_bind_address_of cfg)
        then tls_paths cfg >>= (λ _. ok tt)
        else err (
            ExposeError.config (
              ConfigError.validation
                (lit "https_bind_address must be set when tls_enabled = true"))))
    else ok tt

abbrev pub bind_admin : SocketParser → Option Text → Option Text → Option Text
bind_admin parse (some addr) admin_bind = some addr
bind_admin parse none none = none
bind_admin parse none (some bind) = if is_some (parse bind) then some bind else none

unfoldable pub with_admin_bind : SocketParser → ServerConfig → ServerConfig
with_admin_bind parse cfg = record cfg {
  admin = record cfg.admin {
    bind_address = bind_admin parse cfg.admin.bind_address cfg.admin_bind;
  };
}

unfoldable pub with_legacy_limit : ServerConfig → ServerConfig
with_legacy_limit cfg = record cfg {
  limits = record cfg.limits {
    max_tunnels = unwrap_or cfg.legacy_max_tunnels cfg.limits.max_tunnels;
  };
  legacy_max_tunnels = none;
}

-- `max_pending_requests` sets the global maximum when it was changed and the maximum was not.
unfoldable pub with_pending_limit : ServerConfig → ServerConfig
with_pending_limit cfg = record cfg {
  pending_requests = record cfg.pending_requests {
    max_global =
        if not (cfg.limits.max_pending_requests == default_max_pending)
          && (cfg.pending_requests.max_global == default_max_pending)
        then cfg.limits.max_pending_requests
        else cfg.pending_requests.max_global;
  };
}

-- `map_err(ExposeError::from)`.
abbrev pub from_config : {A : Type 0} → Result ConfigError A → Fallible A
from_config (ok a) = ok a
from_config (err e) = err (ExposeError.config e)

unfoldable pub load : SocketParser → (is_production : Bool) → ServerConfig → Fallible ServerConfig
load parse is_production read = do
  check_tls read
  from_config (
      validate_admin is_production
        (with_pending_limit (with_legacy_limit (with_admin_bind parse read))).admin)
  ok (with_pending_limit (with_legacy_limit (with_admin_bind parse read)))

abbrev pub settled : SocketParser → ServerConfig → ServerConfig
settled parse read = with_pending_limit (with_legacy_limit (with_admin_bind parse read))
