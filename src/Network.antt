-- ===== src/Network.antt =====
-- internal/backend/cloudhypervisor: the network of a cluster on Linux.
pub mod Addr
pub mod Pool
pub mod Subnets
pub mod Host
pub mod Teardown
pub mod Create
mod Tests
