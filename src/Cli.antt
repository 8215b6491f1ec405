-- ===== src/Cli.antt =====
-- cmd/fleetbox: what the commands decide before they act on a machine.
pub mod Members
pub mod Targets
mod Tests
