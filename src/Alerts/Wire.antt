-- ===== src/Alerts/Wire.antt =====
-- An alert on its way from the rule engine to the alert service: `alert.model_dump_json()` in
-- `_emit_alert` of services/rule-engine/src/rule_engine/consumer.py, and `Alert.model_validate` with the
-- models of services/alert-service/src/alert_service/models.py. The JSON text in between is left out,
-- and a time stays the text that it was parsed from.
pub mod RoundTrip
pub mod Emitted
pub mod Ids
pub mod Reading
pub mod Stored
pub mod Appended
use flood_monitoring_and_man.Common.{
  String, Option, none, some, Bool, true, false, not, ◌&&◌, ◌||◌, ◌==◌, string_eq, if◌then◌else◌,
}
use flood_monitoring_and_man.Common.Int.{ℤ, is_negative}
use flood_monitoring_and_man.RuleEngine.Models.{
  Alert, AlertContext, Kind, threshold, malfunction, priority, Severity, low, medium, high,
  Direction, rising, falling, stable,
}
use flood_monitoring_and_man.Alerts.Consumer.{Raw, valid, invalid}

-- The fields of the JSON object; `none` is null.
pub record AlertPayload (F : Type 0) : Type 0 where
  pub schema_version : String
  pub alert_id : String
  pub kind : String
  pub severity : String
  pub area_id : String
  pub sensor_id : Option String
  pub parameter : Option String
  pub value : Option F
  pub threshold_value : Option F
  pub ts_event : String
  pub ts_emitted : String
  pub redundancy_remaining : Option ℤ
  pub trend : Option String
  pub originating_alert_id : Option String

abbrev pub kind_text : Kind → String
kind_text threshold = "threshold"
kind_text malfunction = "malfunction"
kind_text priority = "priority"

abbrev pub severity_text : Severity → String
severity_text low = "low"
severity_text medium = "medium"
severity_text high = "high"

abbrev pub trend_text : Option Direction → Option String
trend_text none = none
trend_text (some rising) = some "rising"
trend_text (some falling) = some "falling"
trend_text (some stable) = some "stable"

unfoldable pub dump_alert : {F : Type 0} → Alert F → AlertPayload F
dump_alert a = record {
  schema_version = "1.0.0";
  alert_id = a.alert_id;
  kind = kind_text a.kind;
  severity = severity_text a.severity;
  area_id = a.area_id;
  sensor_id = a.sensor_id;
  parameter = a.parameter;
  value = a.value;
  threshold_value = a.threshold_value;
  ts_event = a.ts_event;
  ts_emitted = a.ts_emitted;
  redundancy_remaining = a.context.redundancy_remaining;
  trend = trend_text a.context.trend;
  originating_alert_id = a.context.originating_alert_id;
}

-- `_KIND`, `_SEVERITY`, `_TREND` and `_PARAMETER`.
unfoldable pub parse_kind : String → Option Kind
parse_kind s =
    if s == "threshold"
    then some threshold
    else if s == "malfunction"
    then some malfunction
    else if s == "priority"
    then some priority
    else none

unfoldable pub parse_severity : String → Option Severity
parse_severity s =
    if s == "low"
    then some low
    else if s == "medium"
    then some medium
    else if s == "high"
    then some high
    else none

-- `none` is a text that is no trend.
unfoldable pub parse_trend : Option String → Option (Option Direction)
parse_trend none = some none
parse_trend (some s) =
    if s == "rising"
    then some (some rising)
    else if s == "falling"
    then some (some falling)
    else if s == "stable"
    then some (some stable)
    else none

unfoldable pub is_parameter : Option String → Bool
is_parameter none = true
is_parameter (some s) =
    (s == "water_level_m")
    || (s == "river_flow_velocity_m_s")
    || (s == "rainfall_mm_h")
    || (s == "soil_saturation_pct")
    || (s == "wind_speed_m_s")
    || (s == "wind_direction_deg")

-- `Field(default=None, ge=0)`
unfoldable pub is_count : Option ℤ → Bool
is_count none = true
is_count (some n) = not (is_negative n)

-- `is_datetime` says of which texts pydantic makes a datetime.
module _ {F : Type 0} (is_datetime : String → Bool) where
  -- The tests of the fields without a value of their own.
  unfoldable pub has_valid_fields : AlertPayload F → Bool
  unfolding is_parameter is_count
  has_valid_fields p =
      (p.schema_version == "1.0.0")
      && is_parameter p.parameter
      && is_count p.redundancy_remaining
      && is_datetime p.ts_event
      && is_datetime p.ts_emitted

  abbrev pub alert_of : AlertPayload F → Kind → Severity → Option Direction → Alert F
  alert_of p kind severity trend = record {
    alert_id = p.alert_id;
    kind = kind;
    severity = severity;
    area_id = p.area_id;
    sensor_id = p.sensor_id;
    parameter = p.parameter;
    value = p.value;
    threshold_value = p.threshold_value;
    ts_event = p.ts_event;
    ts_emitted = p.ts_emitted;
    context = record {
      redundancy_remaining = p.redundancy_remaining;
      trend = trend;
      originating_alert_id = p.originating_alert_id;
    };
  }

  -- `Alert.model_validate`: `none` is a ValidationError.
  unfoldable pub validate_alert : AlertPayload F → Option (Alert F)
  unfolding has_valid_fields parse_kind parse_severity parse_trend
  validate_alert p = elim (parse_kind p.kind) [
    | none ↦ none
    | some kind ↦ elim (parse_severity p.severity) [
      | none ↦ none
      | some severity ↦ elim (parse_trend p.trend) [
        | none ↦ none
        | some trend ↦ if has_valid_fields p then some (alert_of p kind severity trend) else none
      ]
    ]
  ]

  -- The `try` of `_handle`, for a record with such an object.
  unfoldable pub raw_of : AlertPayload F → Raw F
  unfolding validate_alert
  raw_of p = elim (validate_alert p) [ none ↦ invalid | some a ↦ valid a ]
