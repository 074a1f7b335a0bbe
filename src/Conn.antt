-- ===== src/Conn.antt =====
-- internal/relay/ws_client.go: a client's connection to the relay server.
pub mod Sealing
pub mod EndToEnd
pub mod Control
pub mod Reconnect
pub mod LostReconnect
mod Tests
