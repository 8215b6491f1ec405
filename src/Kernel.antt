-- ===== src/Kernel.antt =====
-- internal/backend/cloudhypervisor/bootextract.go: taking the kernel out of a guest's disk.
pub mod Reader
pub mod Choice
pub mod Files
mod Tests
