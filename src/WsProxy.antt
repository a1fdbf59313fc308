-- ===== src/WsProxy.antt =====
-- The WebSocket proxy of crates/websocket-proxy.
pub mod Registry
pub mod Subscriber
pub mod Server
pub mod Labels
pub mod Relay
pub mod Start
