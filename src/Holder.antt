-- ===== src/Holder.antt =====
-- internal/holder/holder.go: the process that owns one cluster, and what it does for each request.
pub mod State
pub mod Members
pub mod Boot
pub mod Server
pub mod Counter
pub mod Lifecycle
pub mod Requests
pub mod Run
pub mod Life
pub mod System
mod Tests
