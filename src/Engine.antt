-- ===== src/Engine.antt =====
-- The package engine: the baseline detector, and the process that runs a detector.
pub mod Baseline
pub mod Runner
pub mod Adjacency
pub mod Graph
pub mod Features
pub mod Normalize
pub mod Mps
