-- ===== src/Lfs/Served.antt =====
-- What the download route of crates/xetcasd/src/routes/lfs.rs serves is what was asked for.
