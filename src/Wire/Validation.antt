-- ===== src/Wire/Validation.antt =====
-- What pydantic checks: `Literal` and `Field(ge=…, le=…, lt=…)` of every field, and the validator
-- `at_least_one_measurement` of the ingestion gateway.
use flood_monitoring_and_man.Common.{
  ℕ, String, List, [], ◌∷◌, Option, none, some, Bool, true, false, ◌&&◌, ◌==◌, nat_eq, string_eq,
  if◌then◌else◌,
}
use flood_monitoring_and_man.Common.Float.{Float}
use flood_monitoring_and_man.Wire.Parameters.{Measurements, model_dump}

pub data Mode : Type 0 where
  nominal critical : Mode

pub record Payload (F : Type 0) : Type 0 where
  pub schema_version : String
  pub sensor_id : String
  pub area_id : String
  pub ts : String
  pub status : ℕ
  pub mode : String
  pub measurements : Measurements F
  -- Absent from what a sensor sends, present in what the gateway forwards.
  pub ingested_at : Option String

pub record TelemetryEnvelope (F : Type 0) : Type 0 where
  pub sensor_id : String
  pub area_id : String
  pub ts : String
  -- `Literal[0, 1]`: true is 1, healthy.
  pub status : Bool
  pub mode : Mode
  pub measurements : Measurements F

-- `KafkaMessage` of the gateway, `TelemetryMessage` of its consumers.
pub record TelemetryMessage (F : Type 0) : Type 0 where
  pub envelope : TelemetryEnvelope F
  pub open envelope use *
  pub ingested_at : String

unfoldable pub parse_mode : String → Option Mode
parse_mode s =
    if s == "nominal" then some nominal else if s == "critical" then some critical else none

unfoldable pub parse_status : ℕ → Option Bool
parse_status n = if nat_eq n 0 then some false else if nat_eq n 1 then some true else none

module _ {F : Type 0} ⦃f : Float F⦄ where
  -- `Field(None, ge=0, le=hi)`
  abbrev pub in_closed : ℕ → Option F → Bool
  in_closed hi none = true
  in_closed hi (some v) = f.le (f.num 0) v && f.le v (f.num hi)

  -- `Field(None, ge=0, lt=hi)`
  abbrev pub in_half_open : ℕ → Option F → Bool
  in_half_open hi none = true
  in_half_open hi (some v) = f.le (f.num 0) v && f.lt v (f.num hi)

  unfoldable pub fields_valid : Measurements F → Bool
  fields_valid m =
      in_closed 50 m.water_level_m
      && in_closed 20 m.river_flow_velocity_m_s
      && in_closed 500 m.rainfall_mm_h
      && in_closed 100 m.soil_saturation_pct
      && in_closed 100 m.wind_speed_m_s
      && in_half_open 360 m.wind_direction_deg

-- `all(v is None for v in ….values())`
unfoldable pub all_none : {F : Type 0} → List (String × Option F) → Bool
all_none [] = true
all_none ((k, none) ∷ items) = all_none items
all_none ((k, some v) ∷ items) = false

module _ {F : Type 0} ⦃f : Float F⦄ where
  -- `TelemetryEnvelope.model_validate` of the gateway; `none` is a `ValidationError`.
  unfoldable pub validate_fields : Payload F → Option (TelemetryEnvelope F)
  validate_fields p = elim (parse_status p.status) [
    | none ↦ none
    | some s ↦ elim (parse_mode p.mode) [
      | none ↦ none
      | some m ↦
          if (p.schema_version == "1.0.0") && fields_valid p.measurements
          then some (record {
            sensor_id = p.sensor_id;
            area_id = p.area_id;
            ts = p.ts;
            status = s;
            mode = m;
            measurements = p.measurements;
          })
          else none
    ]
  ]

  unfoldable pub validate_envelope : Payload F → Option (TelemetryEnvelope F)
  validate_envelope p = if all_none (model_dump p.measurements) then none else validate_fields p

  -- `TelemetryMessage.model_validate` of the consumers: no validator, and `ingested_at` is required.
  unfoldable pub validate_message : Payload F → Option (TelemetryMessage F)
  validate_message p = elim p.ingested_at [
    | none ↦ none
    | some at ↦ elim (validate_fields p) [
      | none ↦ none
      | some e ↦ some (record { envelope = e; ingested_at = at })
    ]
  ]

abbrev pub mode_text : Mode → String
mode_text nominal = "nominal"
mode_text critical = "critical"

abbrev pub status_number : Bool → ℕ
status_number true = 1
status_number false = 0

-- `json.dumps(kafka_msg.model_dump())`, up to the JSON text.
unfoldable pub dump : {F : Type 0} → TelemetryMessage F → Payload F
dump m = record {
  schema_version = "1.0.0";
  sensor_id = m.sensor_id;
  area_id = m.area_id;
  ts = m.ts;
  status = status_number m.status;
  mode = mode_text m.mode;
  measurements = m.measurements;
  ingested_at = some m.ingested_at;
}

-- `envelope.model_dump_json()` of the simulator, up to the JSON text: there is no `ingested_at`.
unfoldable pub dump_envelope : {F : Type 0} → TelemetryEnvelope F → Payload F
dump_envelope e = record {
  schema_version = "1.0.0";
  sensor_id = e.sensor_id;
  area_id = e.area_id;
  ts = e.ts;
  status = status_number e.status;
  mode = mode_text e.mode;
  measurements = e.measurements;
  ingested_at = none;
}
