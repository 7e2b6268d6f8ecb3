-- ===== src/Core.antt =====
-- The package core: ring buffers and schema validation.
pub mod RingBuffer
pub mod Snapshot
