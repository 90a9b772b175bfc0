-- ===== src/Gateway.antt =====
-- crates/canopee-gateway: the local gateway of browsers, its handshakes and WebSocket connections.
pub mod Frame
pub mod Commands
pub mod Token
pub mod Handshake
pub mod Request
