-- ===== src/Backend.antt =====
-- The server's WebSocket protocol: sessions, calls, rate limits, the Redis calls and the handlers.
pub mod Attachments
pub mod Auth
pub mod Calls
pub mod Connection
pub mod Events
pub mod Limits
pub mod LinkPreview
pub mod Messages
pub mod Queue
pub mod Recovery
pub mod Redis
pub mod Requests
pub mod Sessions
pub mod Signals
pub mod World
