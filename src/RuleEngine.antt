-- ===== src/RuleEngine.antt =====
-- The rule engine, services/rule-engine/src/rule_engine: thresholds, redundancy, and what feeds them.
pub mod Models
pub mod Trend
pub mod History
pub mod Evaluator
pub mod Redundancy
pub mod ThresholdCache
pub mod Consumer
pub mod Watchdog
mod Tests
mod PipelineTests
mod WatchdogTests
