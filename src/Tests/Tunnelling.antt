-- ===== src/Tests/Tunnelling.antt =====
-- The theorems on the client, and on the way from the server to it, at concrete inputs.
use expose.Prelude.{
  ℕ, ◌≡◌, inr, refl, true, false, not, ◌&&◌, List, [], ◌∷◌, none, some, ok, arith, if◌then◌else◌,
}
use expose.Prelude.Assoc.{nat_eq, ◌==◌}
use expose.Prelude.Text.{
  Bytes, text_eq, text_beq, lit, trim, trim_start, is_whitespace, to_ascii_lowercase,
  is_ascii_alphanumeric, is_ascii_digit, as_bytes,
}
use expose.Common.Types.{TunnelProtocol, TunnelConfig, default_limits}
use expose.Common.Error.{ExposeError}
use expose.Common.Message.{Message}
use expose.Common.Codec.{encode}
use expose.Common.Message.{validate}
use expose.Common.Response.{build}
use expose.Common.Subdomain.{sanitize_subdomain, starts_with_char, ends_with_char}
use expose.Server.Proxy.Body.{Frame, chunk, trailers, payload}
use expose.Server.Proxy.Chunks.{chunks, pieces}
use expose.Server.Proxy.Streaming.{
  Channel, StreamingConfig, stream, stream_frames, send_chunks, send, saturating_add, next_sequence,
}
use expose.Client.LocalProxy.{LocalProxy, new_proxy}
use expose.Client.TcpProxy.{SocketWrites}
use expose.Client.Session.{proxy_task}
use expose.Client.Loop.{cancelled}
use expose.Client.Delivery.{Delivers, Encoded, stream-session_loop}
use expose.Client.Backoff.{new_backoff, next_delay, failures, nominal, next_delay-failures}
use expose.Client.Display.{compute_display_url, without_url, compute_display_url-build}
use expose.Client.Config.{
  UrlParser, Cli, Command, FileConfig, build_runtime_config, target, choose_subdomain, check_url,
  merged, Promises, build_runtime_config-Promises,
}
use expose.Client.MultiConfig.{
  MultiFileConfig, MultiFileTunnel, MultiRuntimeConfig, load_multi_runtime_config, multi_tunnels,
  multi_tunnel, runtime_of, entry_config, Loaded, load_multi_runtime_config-Loaded,
}
use expose.Tests.Shared.{toy, toy-RoundTrips}

program : Unit {0}
unfolding lit expose.Common.Subdomain.Filter.allowed trim trim_start is_whitespace
    to_ascii_lowercase is_ascii_alphanumeric is_ascii_digit as_bytes text_beq sanitize_subdomain
    starts_with_char ends_with_char encode validate stream stream_frames send_chunks send
    saturating_add next_sequence chunks pieces build_runtime_config target choose_subdomain
    check_url load_multi_runtime_config multi_tunnels multi_tunnel
program = tt

abbrev frames : List Frame
frames = chunk (1 ∷ 2 ∷ 3 ∷ []) ∷ trailers ∷ chunk (4 ∷ []) ∷ []

abbrev fresh : Channel
fresh = record { sent = []; accepts = λ n. true }

abbrev small : StreamingConfig
small = record { enabled = true; threshold_bytes = 0; chunk_size_bytes = 2; max_body_bytes = 100 }

abbrev filled : Channel
filled = record {
  sent =
      Message.http_request_start 3 (lit "PUT") [] [] none
      ∷ Message.http_request_chunk 3 (1 ∷ 2 ∷ []) 0
      ∷ Message.http_request_chunk 3 (3 ∷ []) 1
      ∷ Message.http_request_chunk 3 (4 ∷ []) 2
      ∷ Message.http_request_end 3
      ∷ [];
  accepts = λ n. true;
}

streamed : stream small 3 (lit "PUT") [] [] none frames fresh ≡ some (ok tt, filled)
unfolding program
streamed = refl

abbrev wire : List Bytes
wire =
    (2 ∷ 3 ∷ lit "PUT")
    ∷ (1 ∷ 3 ∷ 0 ∷ 1 ∷ 2 ∷ [])
    ∷ (1 ∷ 3 ∷ 1 ∷ 3 ∷ [])
    ∷ (1 ∷ 3 ∷ 2 ∷ 4 ∷ [])
    ∷ (0 ∷ 3 ∷ [])
    ∷ []

wire-Encoded : Encoded toy filled.sent wire
unfolding program
wire-Encoded = (refl, (refl, (refl, (refl, (refl, tt)))))

abbrev all_work : SocketWrites
all_work id bytes = none

abbrev local : LocalProxy
local = new_proxy (lit "127.0.0.1") 3000

stream-session_loop_example :
    Delivers toy all_work wire
      (cancelled ∷ [])
      3
      (proxy_task 3 (lit "PUT") [] [] (payload frames))
      local
      none
stream-session_loop_example =
    stream-session_loop small 3 (lit "PUT") [] [] none frames fresh filled toy all_work wire
      (cancelled ∷ []) local none (λ n. refl) refl (omega arith) (omega arith) refl (omega arith)
      (omega arith) toy-RoundTrips streamed wire-Encoded

abbrev lost : ExposeError
lost = ExposeError.network (lit "lost")

abbrev attempts : ℕ
attempts = 4

next_delay-failures_example :
    (next_delay (failures 3 (new_backoff 50 attempts))).0
    ≡ (if not (attempts == 0) && (attempts == 3) then none else some (nominal 50 3))
next_delay-failures_example =
    next_delay-failures 50 attempts 3 (omega arith) (omega arith) (inr (omega arith))

compute_display_url-build_example :
    let response =
      build 7
        (lit "demo")
        (lit "example.com")
        TunnelProtocol.http
        false
        (some 8080)
        default_limits in
    (compute_display_url response ≡ response.public_url)
    × (compute_display_url (without_url response) ≡ response.public_url)
compute_display_url-build_example =
    compute_display_url-build 7 (lit "demo") (lit "example.com") TunnelProtocol.http false
      (some 8080) default_limits

abbrev any_url : UrlParser
any_url url = none

abbrev cli : Cli
cli = record {
  server = none;
  api_key = none;
  subdomain = some (lit " My-App ");
  reconnect_attempts = none;
  reconnect_base_delay_ms = some 50;
  command = Command.http 3000 (lit "127.0.0.1");
}

abbrev file : FileConfig
file = record {
  server_url = some (lit "wss://relay.example.com");
  api_key = none;
  local_host = some (lit "localhost");
  local_port = none;
  protocol = none;
  subdomain = none;
  reconnect_max_attempts = none;
  reconnect_base_delay_ms = none;
  tcp_tuning = none;
}

abbrev built : TunnelConfig
built = merged cli file TunnelProtocol.http 3000 (lit "127.0.0.1") (some (lit "my-app"))

builds : build_runtime_config any_url cli file ≡ ok built
unfolding program
builds = refl

build_runtime_config-Promises_example : Promises any_url cli file built
build_runtime_config-Promises_example = build_runtime_config-Promises any_url cli file built builds

abbrev entry : MultiFileTunnel
entry = record {
  name = none;
  protocol = some TunnelProtocol.tcp;
  local_host = none;
  local_port = 5432;
  subdomain = some (lit "My-Db");
}

abbrev many : MultiFileConfig
many = record {
  server_url = some (lit "wss://relay.example.com");
  api_key = none;
  reconnect_max_attempts = none;
  reconnect_base_delay_ms = none;
  tunnels = entry ∷ [];
}

abbrev runs_many : MultiRuntimeConfig
runs_many =
    runtime_of many (lit "wss://relay.example.com")
      (entry_config (lit "wss://relay.example.com") none entry (some (lit "my-db")) ∷ [])

loads : load_multi_runtime_config many ≡ ok runs_many
unfolding program
loads = refl

load_multi_runtime_config-Loaded_example : Loaded many runs_many
load_multi_runtime_config-Loaded_example = load_multi_runtime_config-Loaded many runs_many loads
