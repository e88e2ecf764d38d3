-- ===== src/Simulator/DemoTests.antt =====
-- The theorems about the demonstrations at concrete inputs.
use flood_monitoring_and_man.Common.{
  ℕ, ◌+◌, String, [], ◌∷◌, ◌++◌, some, none, ◌≡◌, refl, ◌==◌, string_eq, map, length, if◌then◌else◌,
}
use flood_monitoring_and_man.Common.Int.{pos}
use flood_monitoring_and_man.Common.Redis.{operational_count, key_eq}
use flood_monitoring_and_man.Samples.{
  hundredths, hundredths_laws, Counters, counters, counters_laws, draws,
}
use flood_monitoring_and_man.RuleEngine.Redundancy.{Tracker}
use flood_monitoring_and_man.RuleEngine.Redundancy.Counts.{pred_clamped}
use flood_monitoring_and_man.RuleEngine.Redundancy.Notices.{notice_of, notices}
use flood_monitoring_and_man.Simulator.Samples.{literals, tenths, decimals}
use flood_monitoring_and_man.Simulator.Demos.{
  case_1, sensor_task, case_3, district, sensor_a, sensor_b,
}
use flood_monitoring_and_man.Simulator.Demos.Accepted.{IsPublished, cases-IsPublished}
use flood_monitoring_and_man.Simulator.Demos.Seen.{level, IsSeen}
use flood_monitoring_and_man.Simulator.Demos.Steps.{observe}
use flood_monitoring_and_man.Simulator.Demos.Redundancy.{observe-case_3}

abbrev clock : ℕ → String
clock n = "12:00"

cases-IsPublished_example :
    IsPublished clock 0 (case_1 tenths)
    × IsPublished {F = ℕ} clock 0 (sensor_task "s" "a" 3)
    × IsPublished clock 0 (case_3 tenths)
cases-IsPublished_example =
    cases-IsPublished hundredths_laws literals tenths decimals clock "s" "a" 3

-- Three sensors in the district.
abbrev tracker : Tracker Counters
tracker = record {
  redis = λ k. if k == operational_count district level then some (pos 3) else none;
  metrics = [];
}

observe-case_3_example :
    let first = notices draws sensor_a district (clock 6) (λ p. pos 3) 0 (level ∷ []) in
    let second =
      notices draws sensor_b district
        (clock 15)
        (λ p. pred_clamped (pos 3))
        (0 + length first)
        (level ∷ []) in
    let (t', alerts) = observe {F = ℕ} draws clock 0 0 (case_3 tenths) tracker in
    IsSeen sensor_a sensor_b 8 4 (pred_clamped (pred_clamped (pos 3))) t'
    × (map notice_of alerts ≡ first ++ second)
observe-case_3_example =
    observe-case_3 counters_laws tenths draws clock 0 (pos 3) tracker
      (record { faults = refl; other_faults = refl; count = refl })
