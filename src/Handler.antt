-- ===== src/Handler.antt =====
-- handler: the HTTP and WebSocket handlers.
pub mod Signals
pub mod Heartbeats
pub mod Urls
pub mod Platform
pub mod Requests
pub mod Monitoring
