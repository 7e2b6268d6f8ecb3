-- ===== src/Engine/Mps.antt =====
-- The package engine/mps: the fragility of a graph, and the truncation of singular spectra.
pub mod Truncation
pub mod Naive
mod Tests
