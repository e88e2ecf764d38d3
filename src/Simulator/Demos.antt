-- ===== src/Simulator/Demos.antt =====
-- The demonstrations of services/sensor-simulator/src/sensor_simulator/demos.py. `tenths n` is the
-- literal of n / 10. What each case publishes is a list, and the clock is an argument; the sleeps, the
-- connection and the output on the screen are left out.
pub mod Accepted
pub mod Seen
pub mod Steps
pub mod Redundancy
use flood_monitoring_and_man.Common.{
  ℕ, zero, suc, String, List, [], ◌∷◌, ◌++◌, Option, none, some, Bool, true, false, ◌≡◌, map,
  if◌then◌else◌,
}
use flood_monitoring_and_man.Common.Float.{Float}
use flood_monitoring_and_man.Wire.Parameters.{Measurements}
use flood_monitoring_and_man.Wire.Validation.{
  Mode, nominal, critical, TelemetryEnvelope, fields_valid,
}
use flood_monitoring_and_man.Simulator.Params.{min_of}

-- The arguments of `_make_envelope`.
pub record Planned (F : Type 0) : Type 0 where
  pub sensor_id : String
  pub area_id : String
  pub measurements : Measurements F
  pub status : Bool
  pub mode : Mode

abbrev pub nothing_measured : {F : Type 0} → Measurements F
nothing_measured = record {
  water_level_m = none;
  river_flow_velocity_m_s = none;
  rainfall_mm_h = none;
  soil_saturation_pct = none;
  wind_speed_m_s = none;
  wind_direction_deg = none;
}

-- `Measurements(water_level_m=v)` and `Measurements(rainfall_mm_h=v)`.
abbrev pub water : {F : Type 0} → F → Measurements F
water v = record nothing_measured { water_level_m = some v }

abbrev pub rainfall : {F : Type 0} → F → Measurements F
rainfall v = record nothing_measured { rainfall_mm_h = some v }

abbrev pub repeat {ℓ} : {A : Type ℓ} → ℕ → List A → List A
repeat zero xs = []
repeat (suc n) xs = xs ++ repeat n xs

module _ {F : Type 0} ⦃f : Float F⦄ where
  -- `none` is the ValidationError of a value out of range.
  unfoldable pub make_envelope : String → Planned F → Option (TelemetryEnvelope F)
  make_envelope now p =
      if fields_valid p.measurements
      then some (record {
        sensor_id = p.sensor_id;
        area_id = p.area_id;
        ts = now;
        status = p.status;
        mode = p.mode;
        measurements = p.measurements;
      })
      else none

  -- One envelope after another, each published as soon as it is made. `sent` says for which calls
  -- `client.publish` and `wait_for_publish` return: an exception of theirs ends the case, as one of the
  -- envelope does. The flag says that no exception ended the case.
  unfoldable pub publish_plan :
      (ℕ → String) → (ℕ → Bool) → ℕ → List (Planned F) → List (TelemetryEnvelope F) × Bool
  unfolding make_envelope
  publish_plan clock sent i [] = ([], true)
  publish_plan clock sent i (p ∷ ps) = elim (make_envelope (clock i) p) [
    | none ↦ ([], false)
    | some e ↦
        let (rest, done) = publish_plan clock sent (suc i) ps in
        if sent i then (e ∷ rest, done) else ([], false)
  ]

  module _ (tenths : ℕ → F) where
    -- The loop of `case_1`, with `n` rounds left.
    unfoldable pub case_1_from : ℕ → F → List (Planned F)
    case_1_from zero level = []
    case_1_from (suc n) level =
        let level' = min_of (f.num 6) (f.add level (tenths 4)) in
        record {
          sensor_id = "9b60ced7-60e7-4d07-b26e-6bbd7f82de28";
          area_id = "fc1bbbfd-db55-4434-a932-24ac733d995d";
          measurements = water level';
          status = true;
          mode = if f.lt (f.num 3) level' then critical else nominal;
        }
        ∷ case_1_from n level'

    unfoldable pub case_1 : List (Planned F)
    unfolding case_1_from
    case_1 = case_1_from 10 (f.num 1)

  -- The loop of `sensor_task` of `case_2`, with `n` rounds left.
  unfoldable pub sensor_task_from : String → String → ℕ → F → List (Planned F)
  sensor_task_from sensor area zero rain = []
  sensor_task_from sensor area (suc n) rain =
      let rain' = min_of (f.num 60) (f.add rain (f.num 6)) in
      record {
        sensor_id = sensor;
        area_id = area;
        measurements = rainfall rain';
        status = true;
        mode = if f.lt (f.num 30) rain' then critical else nominal;
      }
      ∷ sensor_task_from sensor area n rain'

  unfoldable pub sensor_task : String → String → ℕ → List (Planned F)
  unfolding sensor_task_from
  sensor_task sensor area idx =
      sensor_task_from sensor area 10 (f.add (f.num 5) (f.mul (f.num idx) (f.num 2)))

  -- The tasks of `case_2`, which run beside each other.
  unfoldable pub case_2 : List (List (Planned F))
  unfolding sensor_task
  case_2 =
      sensor_task "6768661b-eefa-4f4d-bad6-08a4f492e623" "11b6fbd1-192d-40ca-8e42-b2d2bccba25f" 0
      ∷ sensor_task "c00cc6c0-d53d-4bdc-8f6f-2ee0c7168cb9" "11b6fbd1-192d-40ca-8e42-b2d2bccba25f" 1
      ∷ sensor_task "3a6a4d49-3268-4c91-9275-0b80805b6637" "b0ec62b5-289e-4e2b-a574-8ae6af781655" 2
      ∷ sensor_task "a7f6f4c0-540f-4556-931e-1ab615b6640a" "b0ec62b5-289e-4e2b-a574-8ae6af781655" 3
      ∷ sensor_task "37c315de-bafd-479c-9dba-c752be37c6d8" "9b254709-db10-4db4-9178-7be73c454f39" 4
      ∷ []

-- The ids of `case_3`.
abbrev pub district : String
district = "fc1bbbfd-db55-4434-a932-24ac733d995d"

abbrev pub sensor_a : String
sensor_a = "9b60ced7-60e7-4d07-b26e-6bbd7f82de28"

abbrev pub sensor_b : String
sensor_b = "dcdd6ecd-5cab-469b-8a6b-f51a7c9098c2"

module _ {F : Type 0} (tenths : ℕ → F) where
  abbrev pub planned_level : String → ℕ → Bool → Planned F
  planned_level sensor level status = record {
    sensor_id = sensor;
    area_id = district;
    measurements = water (tenths level);
    status = status;
    mode = nominal;
  }

  -- One of the three loops: `n` rounds, each of a reading of A and one of B.
  abbrev pub phase : ℕ → ℕ → ℕ → Bool → Bool → List (Planned F)
  phase n a b up_a up_b =
      repeat n (planned_level sensor_a a up_a ∷ planned_level sensor_b b up_b ∷ [])

  -- Both healthy, then A failed, then both failed.
  unfoldable pub case_3 : List (Planned F)
  case_3 = phase 3 15 15 true true ++ phase 4 15 16 false true ++ phase 4 15 15 false false
