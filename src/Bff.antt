-- ===== src/Bff.antt =====
-- The dashboard's backend, services/dashboard-bff/src/dashboard_bff: who may see which area, and
-- what a user is shown.
pub mod Scope
pub mod Shown
pub mod Views
pub mod Authority
pub mod Requests
pub mod Token
pub mod Listing
pub mod HotState
pub mod Areas
pub mod Acknowledge
pub mod Sockets
pub mod Feed
mod Tests
mod AreaTests
mod TokenTests
