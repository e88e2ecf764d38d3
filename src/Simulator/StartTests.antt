-- ===== src/Simulator/StartTests.antt =====
-- The theorem about the fleet at a concrete input.
use flood_monitoring_and_man.Common.{ℕ, [], ◌∷◌, ◌≡◌, true, refl, arith}
use flood_monitoring_and_man.Samples.{hundredths, hundredths_laws}
use flood_monitoring_and_man.Simulator.Params.{
  Param, water_level_m, river_flow_velocity_m_s, rainfall_mm_h, soil_saturation_pct, wind_speed_m_s,
  wind_direction_deg, in_range,
}
use flood_monitoring_and_man.Simulator.Samples.{literals}
use flood_monitoring_and_man.Simulator.Sensor.{Draws}
use flood_monitoring_and_man.Simulator.Start.{Settings, start, IsStarted, start-IsStarted}

abbrev settings : Settings ℕ
settings = record {
  sim_sensor_count = 4;
  sim_area_count = 2;
  sim_nominal_interval_s = 3000;
  sim_critical_interval_s = 500;
  sim_fault_probability = 1;
  sim_delta_filter_pct = 2;
}

-- Every value starts at zero.
zeros_in_range : (i : ℕ) (p : Param) → in_range {F = ℕ} p 0 ≡ true
zeros_in_range i water_level_m = refl
zeros_in_range i river_flow_velocity_m_s = refl
zeros_in_range i rainfall_mm_h = refl
zeros_in_range i soil_saturation_pct = refl
zeros_in_range i wind_speed_m_s = refl
zeros_in_range i wind_direction_deg = refl

abbrev step : Draws ℕ
step = record { delta = λ p. 90000; random = 50; cycles = 3; now = "12:00"; published = true }

start-IsStarted_example :
    IsStarted 4
      (step ∷ step ∷ [])
      (start (λ i. "id") (λ i. water_level_m ∷ rainfall_mm_h ∷ []) (λ i p. 0) settings)
start-IsStarted_example =
    start-IsStarted hundredths_laws literals (λ i. "id") (λ i. water_level_m ∷ rainfall_mm_h ∷ [])
      (λ i p. 0) (λ i. (water_level_m, rainfall_mm_h ∷ [], refl)) zeros_in_range settings
      (step ∷ step ∷ []) (omega arith)
