-- ===== src/Wal.antt =====
-- The write-ahead log, telemetry-processor/src/packages/wal: its checksum, its frames and their
-- scan, and the plan of a compaction.
pub mod Crc
pub mod Segment
pub mod Compact
