-- ===== src/Network.antt =====
-- internal/network: the WebSocket transport.
pub mod WebSocket
