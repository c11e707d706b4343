-- ===== src/Proxy.antt =====
-- internal/proxy: what the handler does with a chat request.
pub mod Messages
pub mod Retry
pub mod Stream
pub mod Turn
pub mod DeadReplica
pub mod Pages
pub mod Forward
pub mod Serve
