-- ===== src/Realtime.antt =====
-- The realtime module, src/realtime: the messages, the event source over LISTEN/NOTIFY and the socket
-- gateway.
pub mod Types
pub mod Notification
pub mod Source
pub mod Socket
pub mod Gateway
