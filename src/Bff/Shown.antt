-- ===== src/Bff/Shown.antt =====
-- `_row_to_dict` of services/dashboard-bff/src/dashboard_bff/db.py: what has a method `hex`, floats and
-- UUIDs, is sent as a text. `str_of` is `str` of a float; ids are texts here already.
use flood_monitoring_and_man.Common.{String, Option, none, some}
use flood_monitoring_and_man.Telemetry.Rows.{Row}
use flood_monitoring_and_man.RuleEngine.Models.{AreaThreshold, Kind, Severity}
use flood_monitoring_and_man.Alerts.Table.{AlertRow}

-- The columns that `get_alerts_for_user` selects; the context is not one of them.
pub record AlertItem : Type 0 where
  pub alert_id : String
  pub kind : Kind
  pub severity : Severity
  pub area_id : String
  pub sensor_id : Option String
  pub parameter : Option String
  pub value : Option String
  pub threshold : Option String
  pub ts_event : String
  pub ts_emitted : String
  pub ts_persisted : String
  pub acknowledged_at : Option String
  pub acknowledged_by : Option String
  pub ack_reason : Option String

module _ {F : Type 0} (str_of : F → String) where
  abbrev pub text_of : Option F → Option String
  text_of none = none
  text_of (some v) = some (str_of v)

  abbrev pub telemetry_to_dict : {D : Type 0} → Row F D → Row String D
  telemetry_to_dict r = record {
    ts = r.ts;
    sensor_id = r.sensor_id;
    area_id = r.area_id;
    status = r.status;
    mode = r.mode;
    measurements = record {
      water_level_m = text_of r.measurements.water_level_m;
      river_flow_velocity_m_s = text_of r.measurements.river_flow_velocity_m_s;
      rainfall_mm_h = text_of r.measurements.rainfall_mm_h;
      soil_saturation_pct = text_of r.measurements.soil_saturation_pct;
      wind_speed_m_s = text_of r.measurements.wind_speed_m_s;
      wind_direction_deg = text_of r.measurements.wind_direction_deg;
    };
    ingested_at = r.ingested_at;
  }

  abbrev pub alert_to_dict : AlertRow F → AlertItem
  alert_to_dict r = record {
    alert_id = r.alert.alert_id;
    kind = r.alert.kind;
    severity = r.alert.severity;
    area_id = r.alert.area_id;
    sensor_id = r.alert.sensor_id;
    parameter = r.alert.parameter;
    value = text_of r.alert.value;
    threshold = text_of r.alert.threshold_value;
    ts_event = r.alert.ts_event;
    ts_emitted = r.alert.ts_emitted;
    ts_persisted = r.ts_persisted;
    acknowledged_at = r.acknowledged_at;
    acknowledged_by = r.acknowledged_by;
    ack_reason = r.ack_reason;
  }

  abbrev pub threshold_to_dict : AreaThreshold F → AreaThreshold String
  threshold_to_dict t = record {
    area_id = t.area_id;
    parameter = t.parameter;
    warning_lo = text_of t.warning_lo;
    warning_hi = text_of t.warning_hi;
    critical_lo = text_of t.critical_lo;
    critical_hi = text_of t.critical_hi;
  }
