-- ===== src/Client/Config.antt =====
-- expose-client/src/config.rs: how command line and file make the configuration of a tunnel, and
-- expose-client/src/cli.rs: the subcommands. The file is what was read and parsed from it, and the
-- URL parser is a parameter: the error for a URL that it refuses. The options for log output and
-- for the path of the file are left out.
use expose.Prelude.{
  ℕ, ◌≤◌, ◌≡◌, ◌≢◌, subst, Bool, inl, inr, ◌++◌, Option, none, some, Result, ok, err, if◌then◌else◌,
  max, arith, Option-cases, Result-cases, or_else, ok_or, unwrap_or, ◌>>=◌, ◌>>◌,
}
use expose.Prelude.Assoc.{nat_eq, ◌==◌}
use expose.Prelude.Text.{Text, text_eq, lit}
use expose.Common.Types.{TunnelProtocol, TcpTuningConfig, TunnelConfig, default_tunnel}
use expose.Common.Error.{ExposeError, ConfigError, Fallible}
use expose.Common.Subdomain.{sanitize_subdomain, sanitize_subdomain_iff, IsLabel}

abbrev pub UrlParser : Type 0
UrlParser = Text → Option Text

pub data Command : Type 0 where
  http tcp : (port : ℕ) (host : Text) → Command
  multi : (config : Text) → Command

pub data CliError : Type 0 where
  invalid_port invalid_config : Text → CliError

-- `Command::validate`, with the test whether a file is there.
unfoldable pub validate_command : (Text → Bool) → Command → Result CliError (Unit {0})
validate_command exists (Command.http port host) =
    if port == 0 then err (CliError.invalid_port (lit "port cannot be 0")) else ok tt
validate_command exists (Command.tcp port host) =
    if port == 0 then err (CliError.invalid_port (lit "port cannot be 0")) else ok tt
validate_command exists (Command.multi config) =
    if exists config
    then ok tt
    else err (CliError.invalid_config (lit "multi config file '" ++ config ++ lit "' not found"))

pub record Cli : Type 0 where
  pub server : Option Text
  pub api_key : Option Text
  pub subdomain : Option Text
  pub reconnect_attempts : Option ℕ
  pub reconnect_base_delay_ms : Option ℕ
  pub command : Command

pub record FileConfig : Type 0 where
  pub server_url : Option Text
  pub api_key : Option Text
  pub local_host : Option Text
  pub local_port : Option ℕ
  pub protocol : Option TunnelProtocol
  pub subdomain : Option Text
  pub reconnect_max_attempts : Option ℕ
  pub reconnect_base_delay_ms : Option ℕ
  pub tcp_tuning : Option TcpTuningConfig

unfoldable pub validation_error : Text → ExposeError
validation_error msg = ExposeError.config (ConfigError.validation msg)

-- The protocol, the port and the host of a subcommand.
unfoldable pub target : Command → Fallible (TunnelProtocol × ℕ × Text)
target (Command.http port host) = ok (TunnelProtocol.http, port, host)
target (Command.tcp port host) = ok (TunnelProtocol.tcp, port, host)
target (Command.multi config) = err (
    validation_error
      (lit "multi command relies on --config file; use that instead of single-tunnel options"))

-- The file's host replaces a host that the command line leaves at its default.
unfoldable pub choose_host : Option Text → Text → Text
choose_host file_host command_host =
    if command_host == lit "127.0.0.1" then unwrap_or file_host command_host else command_host

-- The subdomain asked for, sanitized, or the error with the given end.
unfoldable pub choose_subdomain : Text → Option Text → Fallible (Option Text)
choose_subdomain hint none = ok none
choose_subdomain hint (some subdomain) = do
  sanitized ←
      ok_or (sanitize_subdomain subdomain)
        (validation_error (lit "Subdomain '" ++ subdomain ++ hint))
  ok (some sanitized)

abbrev pub hint_single : Text
hint_single = lit "' is invalid. Use lowercase letters, numbers, and hyphens (e.g., 'my-app')."

abbrev pub hint_multi : Text
hint_multi = lit "' is invalid. Use lowercase letters, numbers, and hyphens."

unfoldable pub check_url : UrlParser → Text → Fallible (Unit {0})
check_url parse url = elim (parse url) [
  | none ↦ ok tt
  | some e ↦ err (validation_error (lit "Invalid server URL: " ++ e))
]

-- A base delay that was given is 100 ms at least.
abbrev choose_delay : Option ℕ → ℕ → ℕ
choose_delay none d = d
choose_delay (some base_delay) d = max base_delay 100

-- The command line goes before the file, and the file before the default.
abbrev server_of : Cli → FileConfig → Text
server_of cli file = unwrap_or (or_else cli.server file.server_url) default_tunnel.server_url

unfoldable pub merged :
    Cli → FileConfig → TunnelProtocol → ℕ → (host : Text) → (subdomain : Option Text) → TunnelConfig
merged cli file protocol port host subdomain = record {
  protocol = protocol;
  local_host = choose_host file.local_host host;
  local_port = port;
  subdomain = subdomain;
  server_url = server_of cli file;
  api_key = or_else cli.api_key file.api_key;
  reconnect_max_attempts =
      unwrap_or (or_else cli.reconnect_attempts file.reconnect_max_attempts)
        default_tunnel.reconnect_max_attempts;
  reconnect_base_delay_ms =
      choose_delay (or_else cli.reconnect_base_delay_ms file.reconnect_base_delay_ms)
        default_tunnel.reconnect_base_delay_ms;
  tcp_tuning = unwrap_or file.tcp_tuning default_tunnel.tcp_tuning;
}

unfoldable pub build_runtime_config : UrlParser → Cli → FileConfig → Fallible TunnelConfig
build_runtime_config parse cli file = do
  (protocol, port, host) ← target cli.command
  subdomain ← choose_subdomain hint_single (or_else cli.subdomain file.subdomain)
  check_url parse (server_of cli file)
  ok (merged cli file protocol port host subdomain)

-- A subdomain that a configuration may ask for: none, or a label.
abbrev pub Asks : Option Text → Type 0
Asks none = Unit
Asks (some s) = IsLabel s

pub choose_subdomain-Asks :
    (hint : Text) (raw o : Option Text) → choose_subdomain hint raw ≡ ok o → Asks o
unfolding choose_subdomain
choose_subdomain-Asks hint none o h = let e : none ≡ o = ground arith in subst Asks e tt
choose_subdomain-Asks hint (some raw) o h = elim (Option-cases (sanitize_subdomain raw)) [
  | inl n ↦ absurd (ground (arith, n, h))
  | inr (s, e) ↦
      let same : some s ≡ o = ground (arith, e, h) in
      subst Asks same (((sanitize_subdomain_iff raw s).0 e).1)
]

choose_delay-min : (given : Option ℕ) (d : ℕ) → 100 ≤ d → 100 ≤ choose_delay given d
choose_delay-min none d h = h
choose_delay-min (some base_delay) d h = omega arith

-- The subcommand asks for a tunnel of this protocol to this port and host.
abbrev pub AsksFor : Command → TunnelProtocol → ℕ → Text → Type 0
AsksFor (Command.http p h) protocol port host =
    (protocol ≡ TunnelProtocol.http) × (port ≡ p) × (host ≡ h)
AsksFor (Command.tcp p h) protocol port host =
    (protocol ≡ TunnelProtocol.tcp) × (port ≡ p) × (host ≡ h)
AsksFor (Command.multi config) protocol port host = ⊥

-- A host other than the default stands; the default gives way to the file's host, if it has one.
abbrev pub HostFrom : (command_host : Text) → (file_host : Option Text) → Text → Type 0
HostFrom command_host file_host host =
    (command_host ≢ lit "127.0.0.1" → host ≡ command_host)
    × ((h : Text) → command_host ≡ lit "127.0.0.1" → file_host ≡ some h → host ≡ h)
    × (file_host ≡ none → host ≡ command_host)

target-AsksFor :
    (command : Command) (protocol : TunnelProtocol) (port : ℕ) (host : Text)
    → target command ≡ ok (protocol, port, host)
    → AsksFor command protocol port host
unfolding target
target-AsksFor (Command.http p h) protocol port host e = ground (arith, e)
target-AsksFor (Command.tcp p h) protocol port host e = ground (arith, e)
target-AsksFor (Command.multi config) protocol port host e = absurd (cc)

choose_host-HostFrom :
    (file_host : Option Text) (command_host : Text)
    → HostFrom command_host file_host (choose_host file_host command_host)
unfolding choose_host
choose_host-HostFrom file_host command_host = (
  λ n. ground (arith, n, text_eq.eqb_iff command_host (lit "127.0.0.1")),
  λ h d f. ground (arith, d, f, text_eq.eqb_iff command_host (lit "127.0.0.1")),
  λ f. ground (arith, f),
)

-- What a configuration that the client builds promises to the rest of it.
abbrev pub Promises : UrlParser → Cli → FileConfig → TunnelConfig → Type 0
Promises parse cli file cfg =
    Asks cfg.subdomain
    × (parse cfg.server_url ≡ none)
    × (100 ≤ cfg.reconnect_base_delay_ms)
    × ((host : Text) × AsksFor cli.command cfg.protocol cfg.local_port host
        × HostFrom host file.local_host cfg.local_host)

check_url_sound : (parse : UrlParser) (url : Text) → check_url parse url ≡ ok tt → parse url ≡ none
unfolding check_url
check_url_sound parse url h = elim (Option-cases (parse url)) [
  | inl n ↦ n
  | inr (e, x) ↦ absurd (ground (arith, x, h))
]

merged-Promises :
    (parse : UrlParser) (cli : Cli) (file : FileConfig) (protocol : TunnelProtocol) (port : ℕ)
    (host : Text) (subdomain : Option Text)
    → target cli.command ≡ ok (protocol, port, host)
    → Asks subdomain
    → parse (server_of cli file) ≡ none
    → Promises parse cli file (merged cli file protocol port host subdomain)
unfolding merged default_tunnel
merged-Promises parse cli file protocol port host subdomain x a u = (
  a,
  u,
  choose_delay-min (or_else cli.reconnect_base_delay_ms file.reconnect_base_delay_ms) 1000
      (omega arith),
  (
    host,
    target-AsksFor cli.command protocol port host x,
    choose_host-HostFrom file.local_host host,
  ),
)

-- Whenever the client builds a configuration, the subdomain it asks for is a label or none, the
-- server URL is one that the parser takes, the reconnect delay is 100 ms at least, and protocol,
-- port and host are those of the subcommand; only a host that is left at its default, 127.0.0.1,
-- gives way to the file's, and only if the file names one.
pub build_runtime_config-Promises :
    (parse : UrlParser) (cli : Cli) (file : FileConfig) (cfg : TunnelConfig)
    → build_runtime_config parse cli file ≡ ok cfg
    → Promises parse cli file cfg
unfolding build_runtime_config
build_runtime_config-Promises parse cli file cfg h = elim (Result-cases (target cli.command)) [
  | inr (e, x) ↦ absurd (ground (arith, x, h))
  | inl ((protocol, port, host), x) ↦
      elim (Result-cases (choose_subdomain hint_single (or_else cli.subdomain file.subdomain))) [
        | inr (e, y) ↦ absurd (ground (arith, x, y, h))
        | inl (subdomain, y) ↦ elim (Result-cases (check_url parse (server_of cli file))) [
          | inr (e, z) ↦ absurd (ground (arith, x, y, z, h))
          | inl (_, z) ↦
              let same : merged cli file protocol port host subdomain ≡ cfg =
                ground (arith, x, y, z, h) in
              subst (Promises parse cli file) same (
                merged-Promises parse cli file protocol port host subdomain x
                  (choose_subdomain-Asks hint_single (or_else cli.subdomain file.subdomain)
                    subdomain y)
                  (check_url_sound parse (server_of cli file) z))
        ]
      ]
]
