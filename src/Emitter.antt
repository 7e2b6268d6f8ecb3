-- ===== src/Emitter.antt =====
-- The package emitter: payloads, delivery, the subscriber registry and its API.
pub mod Payload
pub mod Webhook
pub mod Pipeline
pub mod Registry
pub mod Api
mod Tests
