-- ===== src/Io.antt =====
-- The adapters of streams: src/io.
pub mod Limit
pub mod Digest
