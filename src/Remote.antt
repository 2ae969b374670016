-- ===== src/Remote.antt =====
-- The remote side of src/api.rs: DNS names, client addresses, response codings and sessions.
pub mod Bits
pub mod Address
pub mod Compression
pub mod Text
pub mod Session
pub mod Dns
