-- ===== src/Simulator.antt =====
-- The sensor simulator, services/sensor-simulator/src/sensor_simulator: the simulated sensors.
pub mod Params
pub mod Sensor
pub mod Fleet
pub mod Start
pub mod Demos
pub mod Samples
mod Tests
mod DemoTests
mod StartTests
