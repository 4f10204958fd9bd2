-- ===== src/Quic.antt =====
-- The package `rpc/quic`: the server that accepts connections, and the client that dials and reconnects.
pub mod Server
pub mod Client
pub mod Setup
