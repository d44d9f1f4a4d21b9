-- ===== src/Metas/Wal.antt =====
-- The write-ahead log: src/core/metas/wal.rs.
pub mod Disk
pub mod Read
pub mod Loop
pub mod Compact
pub mod Check
pub mod Numbering
pub mod Validation
pub mod Compaction
pub mod Archive
pub mod RoundTrip
