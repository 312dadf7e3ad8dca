-- ===== src/Gateway.antt =====
-- src/gateway: order messages, the channel between a trading engine and the gateway, the server that
-- validates requests and keeps the orders, and the client of one engine.
pub mod Messages
pub mod Channel
pub mod Types
pub mod Server
pub mod Client
mod Tests
