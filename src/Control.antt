-- ===== src/Control.antt =====
-- internal/control/control.go: the client's side of the holder protocol.
pub mod Client
pub mod Polling
pub mod Served
pub mod Send
pub mod Session
mod Tests
