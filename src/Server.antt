-- ===== src/Server.antt =====
-- The crate expose-server: the relay that registers tunnels and forwards public requests into them.
pub mod Keys
pub mod Config
pub mod Pending
pub mod ActiveTunnel
pub mod Tunnels
pub mod Proxy
pub mod TcpRegistry
pub mod TcpTasks
pub mod Handshake
pub mod Socket
pub mod Connecting
pub mod Admin
