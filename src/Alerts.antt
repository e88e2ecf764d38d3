-- ===== src/Alerts.antt =====
-- The alert service, services/alert-service/src/alert_service: the table of alerts, the endpoints,
-- the consumer and the publisher.
pub mod Table
pub mod Api
pub mod Consumer
pub mod Wire
mod Tests
mod WireTests
