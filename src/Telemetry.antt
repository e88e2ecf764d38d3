-- ===== src/Telemetry.antt =====
-- services/telemetry-service: the batched writer, the Kafka consumer that feeds it, the hot state
-- and the queries.
pub mod Rows
pub mod Writer
pub mod Consumer
pub mod Queries
mod Tests
