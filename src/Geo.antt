-- ===== src/Geo.antt =====
-- The geo service, services/geo-service/src/geo_service: regions, cities, areas, sensors, thresholds.
pub mod Tables
pub mod Api
pub mod References
pub mod Hierarchy
pub mod Retirement
pub mod Registry
pub mod Limits
pub mod Effect
pub mod Registration
pub mod Placement
pub mod Samples
mod Tests
