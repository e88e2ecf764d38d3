-- ===== src/RuleEngine/Watchdog/Quiet.antt =====
-- The alerts for a sensor after the watchdog has found it silent.
use flood_monitoring_and_man.Common.{
  ℕ, ◌+◌, String, List, [], ◌∷◌, ◌++◌, Bool, ◌&&◌, ◌==◌, string_eq, if◌then◌else◌, length,
}
use flood_monitoring_and_man.Common.Redis.{Redis, key_eq}
use flood_monitoring_and_man.RuleEngine.Models.{Alert, Draw}
use flood_monitoring_and_man.RuleEngine.Redundancy.{Tracker, on_sensor_reading}

-- A call of `on_sensor_reading`, for a sensor of any area.
pub record Observation : Type 0 where
  pub sensor_id : String
  pub area_id : String
  pub parameters : List String
  pub status : Bool
  pub ts_event : String

-- A reading with status 1 of the sensor.
abbrev pub is_recovery : String → Observation → Bool
is_recovery sensor x = (x.sensor_id == sensor) && x.status

module _ {R : Type 0} ⦃d : Redis R⦄ (F : Type 0) (draw : ℕ → Draw) where
  abbrev pub react : ℕ → Observation → Tracker R → Tracker R × List (Alert F)
  react n x t = on_sensor_reading F draw n x.sensor_id x.area_id x.parameters x.status x.ts_event t

  -- The alerts that the readings of one sensor raise, among readings of others; the draws go on from
  -- alert to alert.
  unfoldable pub alerts_of : String → ℕ → List Observation → Tracker R → List (Alert F)
  alerts_of sensor n [] t = []
  alerts_of sensor n (x ∷ xs) t =
      let (t', alerts) = react n x t in
      let rest = alerts_of sensor (n + length alerts) xs t' in
      if x.sensor_id == sensor then alerts ++ rest else rest
