-- ===== src/Ingestion.antt =====
-- The package ingestion: decoding, routing, loading and streaming of events.
pub mod Event
pub mod Reconnect
pub mod Whitelist
pub mod Decoders
pub mod Router
pub mod CsvLoader
pub mod Client
pub mod Streams
pub mod Pipeline
