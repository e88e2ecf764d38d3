-- ===== src/Telemetry/Rows.antt =====
-- `_parse_dt` and the arrays that `BatchWriter._flush` of
-- services/telemetry-service/src/telemetry_service/writer.py builds for the INSERT.
-- `datetime.fromisoformat` is not in the repository: `none` is its `ValueError`.
use flood_monitoring_and_man.Common.{
  String, List, [], ◌∷◌, Option, none, some, Bool, ◌≡◌, refl, arith, if◌then◌else◌,
}
use flood_monitoring_and_man.Wire.Parameters.{Measurements}
use flood_monitoring_and_man.Wire.Validation.{TelemetryMessage, Mode}

pub record DateTimes (D : Type 0) : Type 0 where
  pub fromisoformat : String → Option D
  pub has_tzinfo : D → Bool
  pub replace_utc : D → D

unfoldable pub parse_dt : {D : Type 0} ⦃t : DateTimes D⦄ → String → Option D
parse_dt ⦃t⦄ value = elim (t.fromisoformat value) [
  | none ↦ none
  | some dt ↦ some (if t.has_tzinfo dt then dt else t.replace_utc dt)
]

-- A row of tsdb.telemetry.
pub record Row (F D : Type 0) : Type 0 where
  pub ts : D
  pub sensor_id : String
  pub area_id : String
  pub status : Bool
  pub mode : Mode
  pub measurements : Measurements F
  pub ingested_at : D

-- The twelve parallel arrays.
pub record Columns (F D : Type 0) : Type 0 where
  pub ts_arr : List D
  pub sensor_id_arr : List String
  pub area_id_arr : List String
  pub status_arr : List Bool
  pub mode_arr : List Mode
  pub water_level_arr : List (Option F)
  pub flow_velocity_arr : List (Option F)
  pub rainfall_arr : List (Option F)
  pub soil_sat_arr : List (Option F)
  pub wind_speed_arr : List (Option F)
  pub wind_dir_arr : List (Option F)
  pub ingested_at_arr : List D

module _ {F D : Type 0} where
  abbrev pub no_columns : Columns F D
  no_columns = record {
    ts_arr = [];
    sensor_id_arr = [];
    area_id_arr = [];
    status_arr = [];
    mode_arr = [];
    water_level_arr = [];
    flow_velocity_arr = [];
    rainfall_arr = [];
    soil_sat_arr = [];
    wind_speed_arr = [];
    wind_dir_arr = [];
    ingested_at_arr = [];
  }

  -- One message at the front of the arrays of the messages behind it.
  abbrev pub add_message : D → TelemetryMessage F → D → Columns F D → Columns F D
  add_message ts msg ingested_at c = record {
    ts_arr = ts ∷ c.ts_arr;
    sensor_id_arr = msg.sensor_id ∷ c.sensor_id_arr;
    area_id_arr = msg.area_id ∷ c.area_id_arr;
    status_arr = msg.status ∷ c.status_arr;
    mode_arr = msg.mode ∷ c.mode_arr;
    water_level_arr = msg.measurements.water_level_m ∷ c.water_level_arr;
    flow_velocity_arr = msg.measurements.river_flow_velocity_m_s ∷ c.flow_velocity_arr;
    rainfall_arr = msg.measurements.rainfall_mm_h ∷ c.rainfall_arr;
    soil_sat_arr = msg.measurements.soil_saturation_pct ∷ c.soil_sat_arr;
    wind_speed_arr = msg.measurements.wind_speed_m_s ∷ c.wind_speed_arr;
    wind_dir_arr = msg.measurements.wind_direction_deg ∷ c.wind_dir_arr;
    ingested_at_arr = ingested_at ∷ c.ingested_at_arr;
  }

  -- `SELECT * FROM UNNEST($1, …, $12)` over arrays of one length, in the order of the INSERT's columns.
  unfoldable pub unnest_lists :
      List D
      → List String
      → List String
      → List Bool
      → List Mode
      → List (Option F)
      → List (Option F)
      → List (Option F)
      → List (Option F)
      → List (Option F)
      → List (Option F)
      → List D
      → List (Row F D)
  unnest_lists (a ∷ as_) (b ∷ bs) (c ∷ cs) (d ∷ ds) (e ∷ es) (f ∷ fs) (g ∷ gs) (h ∷ hs) (i ∷ is)
        (j ∷ js) (k ∷ ks) (l ∷ ls) =
      record {
        ts = a;
        sensor_id = b;
        area_id = c;
        status = d;
        mode = e;
        measurements = record {
          water_level_m = f;
          river_flow_velocity_m_s = g;
          rainfall_mm_h = h;
          soil_saturation_pct = i;
          wind_speed_m_s = j;
          wind_direction_deg = k;
        };
        ingested_at = l;
      }
      ∷ unnest_lists as_ bs cs ds es fs gs hs is js ks ls
  unnest_lists _ _ _ _ _ _ _ _ _ _ _ _ = []

  unfoldable pub unnest : Columns F D → List (Row F D)
  unfolding unnest_lists
  unnest c =
      unnest_lists c.ts_arr c.sensor_id_arr c.area_id_arr c.status_arr c.mode_arr c.water_level_arr
        c.flow_velocity_arr c.rainfall_arr c.soil_sat_arr c.wind_speed_arr c.wind_dir_arr
        c.ingested_at_arr

-- The one row that a message with these times should become.
abbrev pub row : {F D : Type 0} → D → TelemetryMessage F → D → Row F D
row ts msg ingested_at = record {
  ts = ts;
  sensor_id = msg.sensor_id;
  area_id = msg.area_id;
  status = msg.status;
  mode = msg.mode;
  measurements = msg.measurements;
  ingested_at = ingested_at;
}

abbrev pub map_option : {A B : Type 0} → (A → B) → Option A → Option B
map_option g none = none
map_option g (some a) = some (g a)

module _ {F D : Type 0} ⦃t : DateTimes D⦄ where
  -- The loop `for msg in batch`; `none` is a `ValueError` of one of the two times of a message.
  unfoldable pub build_columns : List (TelemetryMessage F) → Option (Columns F D)
  build_columns [] = some no_columns
  build_columns (msg ∷ batch) = elim (parse_dt msg.ts) [
    | none ↦ none
    | some ts ↦ elim (parse_dt msg.ingested_at) [
      | none ↦ none
      | some at ↦ map_option (add_message ts msg at) (build_columns batch)
    ]
  ]

  -- Message by message, without arrays.
  unfoldable pub rows_of : List (TelemetryMessage F) → Option (List (Row F D))
  rows_of [] = some []
  rows_of (msg ∷ batch) = elim (parse_dt msg.ts) [
    | none ↦ none
    | some ts ↦ elim (parse_dt msg.ingested_at) [
      | none ↦ none
      | some at ↦ map_option (λ rows. row ts msg at ∷ rows) (rows_of batch)
    ]
  ]

  -- The arrays that are sent make one row of each message, in order and with every field in the
  -- column of its name; they cannot be built exactly where a time of a message cannot be parsed.
  pub unnest-build_columns :
      (batch : List (TelemetryMessage F)) → map_option unnest (build_columns batch) ≡ rows_of batch
  unfolding build_columns rows_of unnest
  unnest-build_columns [] = refl
  unnest-build_columns (msg ∷ batch) = ground (arith, unnest-build_columns batch)
