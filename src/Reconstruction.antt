-- ===== src/Reconstruction.antt =====
-- crates/xetcasd/src/reconstruction.rs: which chunks of which xorbs make up a byte range of a file.
-- `Meta` and `Plan` are the code; the other modules prove what a plan is worth to the client that
-- follows it.
pub mod Meta
pub mod Plan
pub mod Content
pub mod Trim
pub mod Segment
pub mod Walk
pub mod Refines
pub mod Fetch
pub mod Extent
mod Tests
