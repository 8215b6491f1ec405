-- ===== src/Copy.antt =====
-- internal/sshkey/copy.go: copying files and trees between the host and a guest.
pub mod Shell
pub mod Paths
pub mod Disk
pub mod Extract
mod Tests
