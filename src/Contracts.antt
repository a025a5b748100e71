-- ===== src/Contracts.antt =====
-- crates/xetcas-contracts: the messages of `candace.xetcas.v1` and their boundary validators.
pub mod Constants
pub mod Transfer
pub mod Storage
pub mod Bridge
pub mod Validate
mod Tests
