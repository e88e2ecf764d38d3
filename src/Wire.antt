-- ===== src/Wire.antt =====
-- The telemetry envelope that travels between the services: `Measurements`, `TelemetryEnvelope` and
-- `KafkaMessage` of services/ingestion-gateway/src/ingestion_gateway/models.py, which
-- rule_engine/models.py and telemetry_service/models.py declare again as `TelemetryMessage`.
-- JSON decoding is not in the repository; a decoded object whose fields have the declared types is a
-- `Payload`. What pydantic then checks of it is written out from the annotations.
pub mod Validation
pub mod Parameters
pub mod RoundTrip
mod Tests
