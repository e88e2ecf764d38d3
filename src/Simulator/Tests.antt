-- ===== src/Simulator/Tests.antt =====
-- The theorems about the sensor simulator at concrete inputs.
use flood_monitoring_and_man.Common.{ℕ, [], ◌∷◌, ◌++◌, true, ◌≡◌, refl}
use flood_monitoring_and_man.Common.Dict.{insert}
use flood_monitoring_and_man.Samples.{hundredths, hundredths_laws}
use flood_monitoring_and_man.Simulator.Params.{
  Param, water_level_m, river_flow_velocity_m_s, rainfall_mm_h, soil_saturation_pct, wind_speed_m_s,
  wind_direction_deg, in_range,
}
use flood_monitoring_and_man.Simulator.Samples.{literals}
use flood_monitoring_and_man.Simulator.Sensor.{Sensor, Draws, initial_from, new_sensor, rounds}
use flood_monitoring_and_man.Simulator.Sensor.Bounds.{IsReady, new_sensor-IsReady}
use flood_monitoring_and_man.Simulator.Sensor.Faults.{IsFault, rounds-IsFault}

-- Every parameter starts at zero.
abbrev zeros : Param → ℕ
zeros p = 0

zeros_in_range : (p : Param) → in_range p (zeros p) ≡ true
zeros_in_range water_level_m = refl
zeros_in_range river_flow_velocity_m_s = refl
zeros_in_range rainfall_mm_h = refl
zeros_in_range soil_saturation_pct = refl
zeros_in_range wind_speed_m_s = refl
zeros_in_range wind_direction_deg = refl

abbrev sensor : Sensor ℕ
sensor = record {
  sensor_id = "s";
  area_id = "a";
  active_params = water_level_m ∷ wind_direction_deg ∷ [];
  nominal_interval = 3000;
  critical_interval = 500;
  fault_probability = 2;
  delta_filter_pct = 1;
  current = (water_level_m, 0) ∷ (wind_direction_deg, 0) ∷ [];
  last_published = [];
  fault_cycles_remaining = 0;
}

-- Steps of 900.00, far out of every range.
abbrev draw : ℕ → Draws ℕ
draw random = record {
  delta = λ p. 90000;
  random = random;
  cycles = 3;
  now = "12:00";
  published = true;
}

sensor-IsReady : IsReady sensor
unfolding new_sensor initial_from insert
sensor-IsReady = new_sensor-IsReady sensor sensor zeros zeros_in_range refl

rounds-IsFault_example :
    IsFault 4 (rounds (draw 1 ∷ (draw 1 ∷ draw 50 ∷ draw 50 ∷ []) ++ draw 50 ∷ []) sensor)
rounds-IsFault_example =
    rounds-IsFault hundredths_laws literals (draw 1) (draw 50) (draw 1 ∷ draw 50 ∷ draw 50 ∷ [])
      sensor sensor-IsReady refl refl refl refl
