-- ===== src/RuleEngine/WatchdogTests.antt =====
-- The theorems about the times of the watchdog at concrete inputs.
use flood_monitoring_and_man.Common.{
  ℕ, ◌+◌, ◌*◌, ◌≤◌, String, [], ◌∷◌, Option, some, none, Bool, true, ◌≡◌, refl, arith, string_eq,
}
use flood_monitoring_and_man.Samples.{
  hundredths, Counters, counters, latest_keys, Timed, timed_keys, timed_keys_laws, draws, message,
}
use flood_monitoring_and_man.Wire.Parameters.{model_dump, present}
use flood_monitoring_and_man.Wire.Validation.{TelemetryMessage}
use flood_monitoring_and_man.RuleEngine.Models.{Alert}
use flood_monitoring_and_man.RuleEngine.Consumer.{Engine, sensor_silence_timeout_s}
use flood_monitoring_and_man.RuleEngine.Watchdog.{Scan}
use flood_monitoring_and_man.RuleEngine.Watchdog.Timing.{found_at}
use flood_monitoring_and_man.RuleEngine.Watchdog.Unnoticed.{
  after_telemetry, scan_at, scan-after_telemetry,
}
use flood_monitoring_and_man.RuleEngine.Watchdog.Noticed.{after_engine, found_at-after_engine}
use flood_monitoring_and_man.Telemetry.Consumer.{both_set, Pipeline}
use flood_monitoring_and_man.Telemetry.Writer.{new_writer}

abbrev Keys : Type 0
Keys = Timed (TelemetryMessage ℕ)

abbrev Areas : Type 0
Areas = String → Option String

abbrev parse_time : String → Option ℕ
parse_time s = some 1000

abbrev pipeline : Pipeline ℕ String Keys Areas
pipeline = record {
  writer = new_writer 500;
  sensors = λ k. none;
  areas = λ k. none;
  consumed = 0;
  parse_errors = 0;
  hot_updates = 0;
}

abbrev start : Scan Counters
start = record { tracker = record { redis = λ k. none; metrics = [] }; silent_count = 0; drawn = 0 }

-- With the 120 seconds of the configuration, written two seconds after the reading came in.
scan-after_telemetry_example :
    scan_at timed_keys parse_time draws 1181
      (after_telemetry timed_keys 120 1002 message both_set pipeline)
      ("s" ∷ "other" ∷ [])
      start
    ≡ scan_at timed_keys parse_time draws 1181
        (after_telemetry timed_keys 120 1002 message both_set pipeline)
        ("other" ∷ [])
        start
scan-after_telemetry_example =
    scan-after_telemetry timed_keys timed_keys_laws parse_time draws 120 1002 1000 1181 message
      both_set pipeline ("other" ∷ []) start refl refl tt (omega arith) (omega arith)

abbrev engine : Engine ℕ Counters Keys
engine = record {
  history = [];
  cache = record { ttl = 60; store = [] };
  tracker = record { redis = λ k. none; metrics = [] };
  hot = λ k. none;
  sent = [];
  drawn = 0;
}

abbrev accept_all : Alert ℕ → Bool
accept_all a = true

-- A scan every 30 seconds.
abbrev scans : ℕ → ℕ
scans k = 1010 + 30 * k

found_at-after_engine_example :
    (k : ℕ) × ((scans k ≤ 1000 + sensor_silence_timeout_s + 30)
      × (found_at timed_keys parse_time
            (scans k)
            (after_engine timed_keys draws accept_all 1002 message [] engine)
            "s"
          ≡ some (record { sensor = "s"; area = "a"; params = "water_level_m" ∷ []; at = "u" })))
unfolding model_dump present
found_at-after_engine_example =
    found_at-after_engine timed_keys timed_keys_laws parse_time draws accept_all 1002 1000 30
      message [] engine "water_level_m" [] scans refl refl refl refl refl (omega arith)
      (omega arith) (omega arith) (omega arith) (λ k. (omega arith, omega arith))
