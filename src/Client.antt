-- ===== src/Client.antt =====
-- src/client: what stands between a connection and the callers of a client.
pub mod Framing
pub mod Dispatcher
pub mod Metadata
