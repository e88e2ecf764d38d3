-- ===== src/Samples/Alerts.antt =====
-- A threshold, a rule engine at its start, and what surrounds its alerts at the alert service.
use flood_monitoring_and_man.Common.{
  ℕ, String, [], Option, some, none, Bool, true, not, ◌==◌, string_eq,
}
use flood_monitoring_and_man.Samples.{Counters}
use flood_monitoring_and_man.Wire.Validation.{TelemetryMessage}
use flood_monitoring_and_man.RuleEngine.Models.{AreaThreshold, Alert}
use flood_monitoring_and_man.RuleEngine.Consumer.{Sent, Engine}
use flood_monitoring_and_man.Alerts.Consumer.{invalid, Delivery}

abbrev pub is_datetime : String → Bool
is_datetime s = not (s == "bad")

abbrev pub water : AreaThreshold ℕ
water = record {
  area_id = "a";
  parameter = "water_level_m";
  warning_lo = none;
  warning_hi = some 200;
  critical_lo = none;
  critical_hi = some 300;
}

abbrev pub Latests : Type 0
Latests = String → Option (TelemetryMessage ℕ)

abbrev pub engine : Engine ℕ Counters Latests
engine = record {
  history = [];
  cache = record { ttl = 60; store = [] };
  tracker = record { redis = λ k. none; metrics = [] };
  hot = λ k. none;
  sent = [];
  drawn = 0;
}

abbrev pub accept_all : Alert ℕ → Bool
accept_all a = true

abbrev pub answers : Sent ℕ → Delivery ℕ
answers x = record {
  raw = invalid;
  now = "12:01";
  area_exists = true;
  area_published = true;
  high_published = true;
}
