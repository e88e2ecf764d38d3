-- ===== src/Bff/HotState.antt =====
-- services/dashboard-bff/src/dashboard_bff/hot_state.py: the summary of an area from the keys
-- `sensor:{sensor_id}:latest`, which hold what the telemetry service writes, or a text that is no JSON.
pub mod Extremes
use flood_monitoring_and_man.Common.{
  ℕ, String, List, [], ◌∷◌, Option, none, some, ◌==◌, string_eq, if◌then◌else◌, length, take,
  text_gt,
}
use flood_monitoring_and_man.Common.Float.{Float}
use flood_monitoring_and_man.Wire.Validation.{Payload}
use flood_monitoring_and_man.Telemetry.Consumer.{Raw, json, unreadable}

-- The two keys of the answer that are there only where there is a reading.
pub record Aggregates (F : Type 0) : Type 0 where
  pub max_water_level_m : Option F
  pub latest_ts : Option String

pub record AreaSummary (F : Type 0) : Type 0 where
  pub area_id : String
  pub sensor_count : ℕ
  pub aggregates : Option (Aggregates F)
  pub latest_readings : List (Payload F)

-- `r.get("ingested_at") or r.get("ts")`, and no empty text.
abbrev pub nonempty : String → Option String
nonempty s = if s == "" then none else some s

abbrev pub ts_of : {F : Type 0} → Payload F → Option String
ts_of r = elim r.ingested_at [
  | none ↦ nonempty r.ts
  | some at ↦ if at == "" then nonempty r.ts else some at
]

abbrev pub loads : {F : Type 0} → Option (Raw F) → Option (Payload F)
loads none = none
loads (some (json reading)) = some reading
loads (some unreadable) = none

module _ {F : Type 0} where
  -- `redis` is GET of the sensors' keys.
  unfoldable pub get_sensor_latest_json : (String → Option (Raw F)) → String → Option (Payload F)
  get_sensor_latest_json redis sensor = loads (redis sensor)

  abbrev pub append_some : Option (Payload F) → List (Payload F) → List (Payload F)
  append_some none readings = readings
  append_some (some reading) readings = reading ∷ readings

  unfoldable pub readings_of : (String → Option (Raw F)) → List String → List (Payload F)
  unfolding get_sensor_latest_json
  readings_of redis [] = []
  readings_of redis (s ∷ ss) = append_some (get_sensor_latest_json redis s) (readings_of redis ss)

abbrev pub later : Option String → Option String → Option String
later latest none = latest
later none (some ts) = some ts
later (some latest) (some ts) = if text_gt ts latest then some ts else some latest

module _ {F : Type 0} ⦃f : Float F⦄ where
  -- `max(max_water, wl) if max_water is not None else wl`
  abbrev pub higher : Option F → Option F → Option F
  higher max_water none = max_water
  higher none (some wl) = some wl
  higher (some max_water) (some wl) = if f.lt max_water wl then some wl else some max_water

  -- The loop over the readings.
  unfoldable pub aggregate : Aggregates F → List (Payload F) → Aggregates F
  aggregate a [] = a
  aggregate a (r ∷ rs) =
      aggregate
        (record {
          max_water_level_m = higher a.max_water_level_m r.measurements.water_level_m;
          latest_ts = later a.latest_ts (ts_of r);
        })
        rs

  abbrev pub summary_of : String → List (Payload F) → AreaSummary F
  summary_of area [] = record {
    area_id = area;
    sensor_count = 0;
    aggregates = none;
    latest_readings = [];
  }
  summary_of area (r ∷ rs) = record {
    area_id = area;
    sensor_count = length (r ∷ rs);
    aggregates = some (aggregate (record { max_water_level_m = none; latest_ts = none }) (r ∷ rs));
    latest_readings = take 5 (r ∷ rs);
  }

  unfoldable pub get_area_summary : (String → Option (Raw F)) → String → List String → AreaSummary F
  unfolding readings_of aggregate
  get_area_summary redis area sensors = summary_of area (readings_of redis sensors)
