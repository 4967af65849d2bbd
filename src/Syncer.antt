-- ===== src/Syncer.antt =====
-- syncer/batchsync.go.
pub mod Listing
pub mod Convert
pub mod Round
pub mod Periodic
