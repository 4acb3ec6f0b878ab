-- ===== src/Server/Proxy.antt =====
-- expose-server/src/proxy: a public request on its way into a tunnel.
pub mod Host
pub mod Body
pub mod Streaming
pub mod Chunks
pub mod Transfer
pub mod Handler
