-- ===== src/RuleEngine/Tests.antt =====
-- The theorems about the rule engine at concrete inputs, and runs of its code.
use flood_monitoring_and_man.Common.{
  ℕ, List, [], ◌∷◌, some, none, true, false, ◌≡◌, refl, ◌==◌, map, if◌then◌else◌, string_eq,
}
use flood_monitoring_and_man.Common.Int.{pos}
use flood_monitoring_and_man.Common.Redis.{operational_count, key_eq}
use flood_monitoring_and_man.Samples.{
  hundredths, hundredths_laws, Counters, counters, counters_laws, latest_keys, draws,
}
use flood_monitoring_and_man.RuleEngine.Models.{AreaThreshold}
use flood_monitoring_and_man.RuleEngine.Evaluator.{crossed}
use flood_monitoring_and_man.RuleEngine.Evaluator.Severities.{
  intended_severity, are_apart, crossed-severity,
}
use flood_monitoring_and_man.RuleEngine.Redundancy.{Tracker, on_sensor_reading}
use flood_monitoring_and_man.RuleEngine.Redundancy.Faults.{is_healthy}
use flood_monitoring_and_man.RuleEngine.Redundancy.Notices.{
  notice_of, notices, count_of, notices-first_fault,
}
use flood_monitoring_and_man.RuleEngine.Redundancy.Recovery.{
  fault_and_recovery, count-fault_and_recovery,
}
use flood_monitoring_and_man.RuleEngine.Redundancy.Population.{Reading, run, IsExact, run-IsExact}

-- Water level thresholds as scripts/seed.py sets them, with a lower bound of each kind.
abbrev water : AreaThreshold ℕ
water = record {
  area_id = "a";
  parameter = "water_level_m";
  warning_lo = some 50;
  warning_hi = some 200;
  critical_lo = some 10;
  critical_hi = some 300;
}

abbrev two_sensors : Counters
two_sensors k = if operational_count "a" "p" == k then some (pos 2) else none

abbrev tracker : Tracker Counters
tracker = record { redis = two_sensors; metrics = [] }

abbrev down_up : List Reading
down_up =
    record { sensor_id = "s"; parameters = "p" ∷ []; status = false; ts_event = "t" }
    ∷ record { sensor_id = "r"; parameters = "p" ∷ []; status = false; ts_event = "t" }
    ∷ record { sensor_id = "s"; parameters = "p" ∷ []; status = true; ts_event = "t" }
    ∷ []

run-IsExact_example : IsExact "a" "p" ("s" ∷ "r" ∷ []) (run ℕ draws "a" 0 down_up tracker).redis
unfolding is_healthy
run-IsExact_example =
    run-IsExact counters_laws ℕ draws "a" "p" ("s" ∷ "r" ∷ []) 0 down_up tracker (refl, (refl, tt))
      (
        record { known = refl; distinct = (refl, tt); measured = refl },
        (
          record { known = refl; distinct = (refl, tt); measured = refl },
          (record { known = refl; distinct = (refl, tt); measured = refl }, tt),
        ),
      )
      (record { count_exact = refl; faults_nonneg = λ s. refl })

notices-first_fault_example :
    map notice_of (on_sensor_reading ℕ draws 0 "s" "a" ("p" ∷ "q" ∷ []) false "t" tracker).1
    ≡ notices draws "s" "a" "t" (count_of "a" two_sensors) 0 ("p" ∷ "q" ∷ [])
unfolding is_healthy
notices-first_fault_example =
    notices-first_fault counters_laws ℕ draws "s" "a" "t" 0 ("p" ∷ "q" ∷ []) tracker
      (refl, (refl, tt)) refl

count-fault_and_recovery_example :
    (counters.get
        (fault_and_recovery ℕ draws 0 1 "s" "a" ("p" ∷ []) "t" "u" tracker)
        (operational_count "a" "p")
      ≡ some (pos 2))
    × (is_healthy "s" (fault_and_recovery ℕ draws 0 1 "s" "a" ("p" ∷ []) "t" "u" tracker) ≡ true)
unfolding is_healthy
count-fault_and_recovery_example =
    count-fault_and_recovery counters_laws ℕ draws 0 1 "s" "a" ("p" ∷ []) "t" "u" tracker "a" "p" 1
      (refl, tt) refl refl

crossed-severity_example : (crossed water 5).0 ≡ intended_severity water 5
unfolding are_apart
crossed-severity_example = crossed-severity hundredths_laws.lt_trans water 5 refl
