-- ===== src/Lib.antt =====
-- The program is expose, a tunnel: a server relays public HTTP requests and TCP connections through
-- a WebSocket to a client, which forwards them to a service on its own machine. The development
-- models the logic of its three crates.
--
-- Parts, and the files that model them (paths are those of the repository):
-- - expose-common/src/protocol.rs, utils.rs, error.rs, types.rs: Common. `Message` and the
--   versions are data as in the source; `Common.Codec` has encode and decode, `Common.Response`
--   ConnectResponse::build, `Common.Subdomain` sanitize_subdomain.
-- - expose-server/src/tunnel_manager.rs: `Server.Pending` (PendingStore, registration of a pending
--   request, fulfill, close, the sweeper's tick), `Server.ActiveTunnel` (the rate limit) and
--   `Server.Tunnels` (registration, names, limits, allocation, disconnection). Each operation takes
--   the state and returns the new one with its result; messages handed to waiters are a list of
--   deliveries. `Server.Pending.History` has histories of operations as data.
-- - expose-server/src/proxy: `Server.Proxy` (Host for host.rs, Body for body.rs, Streaming for
--   streaming.rs, Handler for mod.rs, limiter.rs, encoder.rs and response.rs). The channel to the
--   tunnel's writer is the list of messages that it took.
-- - expose-server/src/admin.rs, and the readiness test of expose-server/src/health.rs:
--   `Server.Admin`.
-- - expose-server/src/config.rs and middleware/auth.rs: `Server.Config` and `Server.Keys`.
-- - expose-server/src/server.rs: `Server.Connecting` (wait_for_connect and handle_socket as a whole),
--   `Server.Handshake` and `Server.Socket` (its two halves). expose-server/src/tcp_proxy.rs:
--   `Server.TcpRegistry` (the table of connections) and `Server.TcpTasks` (a new connection and the
--   task that reads it).
-- - expose-client/src/tunnel.rs: `Client.Backoff` and `Client.Run` (reconnection), `Client.Session`
--   (handle_frame), `Client.Loop` (the loop of a session), `Client.Handshake` (perform_handshake),
--   `Client.SingleSession` (run_single_session and its writer), `Client.Version` and
--   `Client.Display`.
-- - expose-client/src/multi.rs: `Client.Multi` (MultiTunnelManager and handle_frame),
--   `Client.Multi.Opening` (a session) and `Client.Multi.Rounds` (the loop over sessions).
-- - expose-client/src/proxy.rs and tcp_proxy.rs: `Client.LocalProxy` and `Client.TcpProxy`.
-- - expose-client/src/config.rs and cli.rs: `Client.Config` and `Client.MultiConfig`.
-- - `Client.Delivery`, `Client.Relay`, `Client.Agreement` and `Client.Multi.OneSocket` join both
--   ends: what the server sends, and what the client makes of it.
--
-- How the code is represented: numbers are natural numbers, with the wrap of the machine's counters
-- written out; text is a list of code points; a UUID, a sender and a point in time are numbers; a
-- DashMap or HashMap is an association list in order of insertion, and a statement about which
-- requests are answered lists them in that order; a oneshot channel is the number of its sender.
-- bincode, SHA-256, the constant-time comparison, the token bucket, random samples, the parsers of
-- URLs and socket addresses and the outcome of socket operations are parameters, with the behaviour
-- that their documentation promises as hypotheses.
--
-- Fuel: `Server.Proxy.Chunks.pieces` runs for as many rounds as there are bytes, and each round takes
-- one byte at least; `Prelude.Text.digits` has one round more than the number, and each divides it by
-- ten. `allocate_subdomain` has the five rounds of the source.
--
-- Interleavings: an operation on a shared map is a single step, except in `Server.Pending.Races`,
-- where the registration of a request is the accesses that it makes, with those of other tasks in
-- between, and in `Server.Proxy.Handler`, where a history of what other tasks do to the waiting requests
-- stands between the registration and the end of the handler. A task that runs beside a loop is an event of the loop when it ends, or, for the call of the
-- local service, an action that the loop starts. A loop of a client that has no further event waits and
-- has no result yet, and so has a function that waits for its writer task.
--
-- Not modelled: sockets, listeners, TLS and HTTP routing, the HTTP call of the local service, the
-- health report and the metrics, TCP tuning and system calls, logging and the console, pings, and the
-- accept loop of a TCP tunnel.
pub mod Prelude
pub mod Common
pub mod Client
pub mod Server
pub mod Tests
