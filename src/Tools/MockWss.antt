-- ===== src/Tools/MockWss.antt =====
-- tools/mock_wss: the replay server that feeds fixtures to the ingestion pipeline.
pub mod Fixture
pub mod Scenario
pub mod Speed
pub mod Blocks
pub mod RawLog
pub mod Server
pub mod Replay
pub mod RoundTrip
mod Tests
