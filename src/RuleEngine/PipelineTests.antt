-- ===== src/RuleEngine/PipelineTests.antt =====
-- The theorems about the rule engine's evaluator, cache, consumer and watchdog at concrete inputs.
use flood_monitoring_and_man.Common.{List, [], ◌∷◌, none, false, ◌≡◌, map, string_eq}
use flood_monitoring_and_man.Common.Redis.{key_eq}
use flood_monitoring_and_man.Samples.{hundredths, Counters, counters, latest_keys, draws, message}
use flood_monitoring_and_man.Samples.Alerts.{water}
use flood_monitoring_and_man.Wire.Parameters.{as_param_dict}
use flood_monitoring_and_man.RuleEngine.Evaluator.{evaluate_thresholds}
use flood_monitoring_and_man.RuleEngine.Evaluator.Alerts.{reports-evaluate_thresholds}
use flood_monitoring_and_man.RuleEngine.Evaluator.Expected.{report_of, expected}
use flood_monitoring_and_man.RuleEngine.Watchdog.{Scan, Silent}
use flood_monitoring_and_man.RuleEngine.Watchdog.Quiet.{Observation}

reports-evaluate_thresholds_example :
    map report_of (evaluate_thresholds draws message 0 (water ∷ []) [])
    ≡ expected message [] (water ∷ []) (as_param_dict message.measurements)
reports-evaluate_thresholds_example = reports-evaluate_thresholds draws message 0 (water ∷ []) []

abbrev quiet : Silent
quiet = record { sensor = "s"; area = "a"; params = "p" ∷ []; at = "t" }

abbrev start : Scan Counters
start = record { tracker = record { redis = λ k. none; metrics = [] }; silent_count = 0; drawn = 0 }

-- A fault of another sensor, and one of the silent sensor.
abbrev faults : List Observation
faults =
    record { sensor_id = "r"; area_id = "a"; parameters = "p" ∷ []; status = false; ts_event = "u" }
    ∷ record {
      sensor_id = "s";
      area_id = "a";
      parameters = "p" ∷ [];
      status = false;
      ts_event = "v";
    }
    ∷ []
