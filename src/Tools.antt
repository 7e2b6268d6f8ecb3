-- ===== src/Tools.antt =====
-- The package tools: the mock server and its replay.
pub mod MockWss
pub mod ExtractFixtures
pub mod VerifyFixtures
pub mod Dotenv
pub mod ProfileQuality
pub mod Reconcile
