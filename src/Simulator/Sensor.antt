-- ===== src/Simulator/Sensor.antt =====
-- `Sensor` of services/sensor-simulator/src/sensor_simulator/sensor.py: the constructor and the rounds
-- of `run`. What the random generator, the clock and the broker give is an argument of each round.
pub mod Bounds
pub mod Measured
pub mod Sent
pub mod Faults
use flood_monitoring_and_man.Common.{
  ℕ, zero, suc, String, List, [], ◌∷◌, Option, none, some, Bool, true, false, not, ◌&&◌, ◌||◌,
  if◌then◌else◌,
}
use flood_monitoring_and_man.Common.Dict.{Dict, lookup, insert}
use flood_monitoring_and_man.Common.Float.{Float}
use flood_monitoring_and_man.Wire.Parameters.{Measurements}
use flood_monitoring_and_man.Wire.Validation.{
  Mode, nominal, critical, TelemetryEnvelope, fields_valid,
}
use flood_monitoring_and_man.Simulator.Params.{
  Param, param_eq, water_level_m, river_flow_velocity_m_s, rainfall_mm_h, soil_saturation_pct,
  wind_speed_m_s, wind_direction_deg, hi, clamp,
}

abbrev pub Readings : Type 0 → Type 0
Readings F = Dict Param F

pub record Sensor (F : Type 0) : Type 0 where
  pub sensor_id : String
  pub area_id : String
  pub active_params : List Param
  pub nominal_interval : F
  pub critical_interval : F
  pub fault_probability : F
  pub delta_filter_pct : F
  pub current : Readings F
  pub last_published : Readings F
  pub fault_cycles_remaining : ℕ

-- What one round draws: the step of each parameter, the number against the fault probability, and the
-- length of a fault (`randint(FAULT_MIN_CYCLES, FAULT_MAX_CYCLES)`); the time, and whether the broker
-- took the message.
pub record Draws (F : Type 0) : Type 0 where
  pub delta : Param → F
  pub random : F
  pub cycles : ℕ
  pub now : String
  pub published : Bool

-- What a round did: whether the sensor was faulty, the envelope it tried to publish, or `none` where the
-- filter suppressed it, and the sleep that follows.
pub record Round (F : Type 0) : Type 0 where
  pub is_faulty : Bool
  pub envelope : Option (TelemetryEnvelope F)
  pub interval : F

module _ {F : Type 0} ⦃f : Float F⦄ where
  -- `{p: rng.uniform(lo, hi) for p in active_params}`, from a dictionary that is already there.
  unfoldable pub initial_from : (Param → F) → Readings F → List Param → Readings F
  initial_from uniform current [] = current
  initial_from uniform current (p ∷ ps) = initial_from uniform (insert p (uniform p) current) ps

  -- The loop of `_generate_measurements`, on `_current` and `updated`; `none` is a KeyError.
  unfoldable pub walk :
      Draws F → Readings F → Readings F → List Param → Option (Readings F × Readings F)
  walk d current updated [] = some (current, updated)
  walk d current updated (p ∷ ps) = elim (lookup p current) [
    | none ↦ none
    | some v ↦
        let new_val = clamp p (f.add v (d.delta p)) in
        walk d (insert p new_val current) (insert p new_val updated) ps
  ]

  unfoldable pub generate_measurements : Draws F → Sensor F → Option (Readings F × Readings F)
  unfolding walk
  generate_measurements d s = walk d s.current [] s.active_params

  -- `__init__`; no parameter is a ValueError. `config` has the arguments of the constructor.
  unfoldable pub new_sensor : Sensor F → (Param → F) → Option (Sensor F)
  unfolding initial_from
  new_sensor config uniform = elim config.active_params [
    | [] ↦ none
    | p ∷ ps ↦ some (record config {
      current = initial_from uniform [] config.active_params;
      last_published = [];
      fault_cycles_remaining = 0;
    })
  ]

  unfoldable pub check_critical : Readings F → Bool
  check_critical [] = false
  check_critical ((p, v) ∷ rest) = f.lt (f.mul f.seventy_pct (hi p)) v || check_critical rest

  abbrev pub is_small : F → F → Option F → Bool
  is_small threshold value none = false
  is_small threshold value (some previous) = not (f.le threshold (f.abs (f.sub value previous)))

  unfoldable pub all_small : F → Readings F → Readings F → Bool
  all_small pct last [] = true
  all_small pct last ((p, v) ∷ rest) =
      is_small (f.mul pct (hi p)) v (lookup p last) && all_small pct last rest

  unfoldable pub should_suppress : F → Readings F → Readings F → Bool
  unfolding all_small
  should_suppress pct [] measurements = false
  should_suppress pct (entry ∷ last) measurements = all_small pct (entry ∷ last) measurements

  -- `{p: measurements.get(p) for p in PARAM_META}`
  abbrev pub measurements_of : Readings F → Measurements F
  measurements_of m = record {
    water_level_m = lookup water_level_m m;
    river_flow_velocity_m_s = lookup river_flow_velocity_m_s m;
    rainfall_mm_h = lookup rainfall_mm_h m;
    soil_saturation_pct = lookup soil_saturation_pct m;
    wind_speed_m_s = lookup wind_speed_m_s m;
    wind_direction_deg = lookup wind_direction_deg m;
  }

  -- `none` is the ValidationError of a value out of range, which ends the task of the sensor.
  unfoldable pub build_envelope :
      Sensor F → Readings F → Bool → Bool → String → Option (TelemetryEnvelope F)
  build_envelope s measurements is_critical is_faulty now =
      if fields_valid (measurements_of measurements)
      then some (record {
        sensor_id = s.sensor_id;
        area_id = s.area_id;
        ts = now;
        status = not is_faulty;
        mode = if is_critical then critical else nominal;
        measurements = measurements_of measurements;
      })
      else none

  -- The fault injection: whether this round is faulty, and the cycles that remain.
  unfoldable pub inject_fault : F → Draws F → ℕ → Bool × ℕ
  inject_fault probability d (suc n) = (true, n)
  inject_fault probability d zero =
      if f.lt d.random probability then (true, d.cycles) else (false, 0)

  abbrev pub finish_publish :
      Sensor F
      → Readings F
      → Bool
      → F
      → Draws F
      → Option (TelemetryEnvelope F)
      → Option (Sensor F × Round F)
  finish_publish s measurements is_faulty interval d none = none
  finish_publish s measurements is_faulty interval d (some envelope) = some (
    (if d.published then record s { last_published = measurements } else s),
    record { is_faulty = is_faulty; envelope = some envelope; interval = interval },
  )

  unfoldable pub publish_round :
      Sensor F → Readings F → Bool → Bool → Draws F → Option (Sensor F × Round F)
  unfolding should_suppress build_envelope
  publish_round s measurements is_critical is_faulty d =
      let interval = if is_critical then s.critical_interval else s.nominal_interval in
      if not is_faulty && should_suppress s.delta_filter_pct s.last_published measurements
      then some (s, record { is_faulty = is_faulty; envelope = none; interval = interval })
      else finish_publish s measurements is_faulty interval d
          (build_envelope s measurements is_critical is_faulty d.now)

  -- One turn of the loop of `run`, up to the sleep; `none` is an exception that ends the task.
  unfoldable pub round : Draws F → Sensor F → Option (Sensor F × Round F)
  unfolding generate_measurements check_critical inject_fault publish_round
  round d s = elim (generate_measurements d s) [
    | none ↦ none
    | some (current, measurements) ↦
        let (is_faulty, remaining) = inject_fault s.fault_probability d s.fault_cycles_remaining in
        publish_round (record s { current = current; fault_cycles_remaining = remaining })
          measurements (check_critical measurements) is_faulty d
  ]

  abbrev pub continue_rounds :
      Round F → Option (Sensor F × List (Round F)) → Option (Sensor F × List (Round F))
  continue_rounds r none = none
  continue_rounds r (some (s, rs)) = some (s, r ∷ rs)

  unfoldable pub rounds : List (Draws F) → Sensor F → Option (Sensor F × List (Round F))
  rounds [] s = some (s, [])
  rounds (d ∷ ds) s = elim (round d s) [
    | none ↦ none
    | some (s', r) ↦ continue_rounds r (rounds ds s')
  ]
