-- ===== src/Contracts/Validate.antt =====
-- crates/xetcas-contracts/src/v1/validate.rs: the error, the checks on one field, and the loops
-- that the validators share. The validators stand in the children, one for each .proto file.
pub mod Transfer
pub mod Storage
pub mod Bridge
pub mod Fields
pub mod Accepts
pub mod TransferLaws
pub mod StorageLaws
pub mod BridgeLaws
