-- ===== src/Client.antt =====
-- The crate expose-client: the program that opens a tunnel and forwards its traffic to a local
-- service.
pub mod Display
pub mod LocalProxy
pub mod TcpProxy
pub mod Session
pub mod Config
pub mod MultiConfig
pub mod Loop
pub mod Backoff
pub mod Run
pub mod Delivery
pub mod EarlyData
pub mod Handshake
pub mod Agreement
pub mod Relay
pub mod SingleSession
pub mod Version
pub mod Multi
