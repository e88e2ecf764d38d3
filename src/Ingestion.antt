-- ===== src/Ingestion.antt =====
-- The ingestion gateway, services/ingestion-gateway/src/ingestion_gateway: the sensor cache and the
-- bridge from MQTT to Kafka.
pub mod SensorCache
pub mod Gateway
mod Tests
