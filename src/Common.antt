-- ===== src/Common.antt =====
-- The crate expose-common: what the client and the server share.
pub mod Types
pub mod Error
pub mod Message
pub mod Version
pub mod Response
pub mod Codec
pub mod Subdomain
