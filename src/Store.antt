-- ===== src/Store.antt =====
-- internal/store/store.go: where a member's files live, and what the store does with them.
pub mod Names
pub mod Config
pub mod Tree
mod Tests
