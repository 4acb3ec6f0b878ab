-- ===== src/Tests.antt =====
-- The theorems at concrete inputs.
mod Shared
mod Wire
mod Manager
mod Proxying
mod Tunnelling
mod Sockets
mod Several
mod Format
mod Meeting
mod Requests
