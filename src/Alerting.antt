-- ===== src/Alerting.antt =====
-- The way of a critical reading through the services: the rule engine (services/rule-engine) evaluates it,
-- the alert service (services/alert-service) stores what comes of it, and the dashboard's backend
-- (services/dashboard-bff) shows it.
mod Reading
mod Tests
use flood_monitoring_and_man.Common.{
  ℕ, zero, suc, ◌+◌, ◌≤◌, String, List, [], ◌∷◌, ◌++◌, Option, none, some, Bool, true, false, not,
  leb, ◌&&◌, ◌||◌, ◌≡◌, refl, arith, ◌==◌, string_eq, if◌then◌else◌, map, length, take, drop,
  keep_if, any, any-append, any-append_left, Bool-cases, inl, inr, ap, sym, subst, ◌∙◌,
}
use flood_monitoring_and_man.Common.Dict.{Dict, lookup}
use flood_monitoring_and_man.Common.Float.{Float}
use flood_monitoring_and_man.Common.HotState.{HotState}
use flood_monitoring_and_man.Common.Redis.{Redis}
use flood_monitoring_and_man.Wire.Parameters.{as_param_dict}
use flood_monitoring_and_man.Wire.Validation.{TelemetryMessage}
use flood_monitoring_and_man.RuleEngine.Models.{Alert, AreaThreshold, Draw, Kind, Severity, high}
use flood_monitoring_and_man.RuleEngine.Trend.{compute_trend}
use flood_monitoring_and_man.RuleEngine.History.{or_empty}
use flood_monitoring_and_man.RuleEngine.Evaluator.Alerts.{reports-evaluate_thresholds}
use flood_monitoring_and_man.RuleEngine.Evaluator.Expected.{
  upper, beyond, last_for, Report, report_of, expected,
}
use flood_monitoring_and_man.RuleEngine.Consumer.{Sent, Engine, update_params}
use flood_monitoring_and_man.RuleEngine.Consumer.Emission.{
  sent_of, threshold_alerts, redundancy_alerts,
}
use flood_monitoring_and_man.Alerts.Table.{
  AlertRow, Table, new_row, severity_eq, severity_matches, acknowledged_matches,
}
use flood_monitoring_and_man.Alerts.Consumer.{Delivery, Service, consume}
use flood_monitoring_and_man.Alerts.Wire.Emitted.{alerts_for}
use flood_monitoring_and_man.Alerts.Wire.Stored.{sent_alerts, new_deliveries}
use flood_monitoring_and_man.Alerts.Wire.Appended.{rows_of, IsAhead, new_deliveries-appended}
use flood_monitoring_and_man.Bff.Scope.{elem, UserContext}
use flood_monitoring_and_man.Bff.Shown.{AlertItem, text_of, alert_to_dict}
use flood_monitoring_and_man.Bff.Views.{
  visible, select_alerts, get_alerts_for_user, list_user_alerts,
}
use flood_monitoring_and_man.Auth.Api.{Reply, ok, http_error}
use flood_monitoring_and_man.Alerting.Reading.{
  any-map, take-all, any-rows_of, critical_report, readings_before, sent_alerts-critical, in_view,
  any-in_view,
}

-- The fields of a report that the dashboard shows: its numbers are texts, and there is no trend.
module _ {F : Type 0} (str_of : F → String) where
  abbrev pub shown_report : Report F → Report String
  shown_report r = record {
    kind = r.kind;
    area_id = r.area_id;
    sensor_id = r.sensor_id;
    parameter = r.parameter;
    value = text_of str_of r.value;
    severity = r.severity;
    bound = text_of str_of r.bound;
    trend = none;
    ts_event = r.ts_event;
  }

abbrev pub report_of_item : AlertItem → Report String
report_of_item i = record {
  kind = i.kind;
  area_id = i.area_id;
  sensor_id = i.sensor_id;
  parameter = i.parameter;
  value = i.value;
  severity = i.severity;
  bound = i.threshold;
  trend = none;
  ts_event = i.ts_event;
}

-- The reply is a list with an alert that passes a test.
abbrev pub lists : (Report String → Bool) → Reply (List AlertItem) → Bool
lists q (ok items) = any (λ i. q (report_of_item i)) items
lists q (http_error n) = false

module _ {F R H : Type 0} ⦃f : Float F⦄ ⦃d : Redis R⦄ ⦃h : HotState H (TelemetryMessage F)⦄
    (is_datetime : String → Bool) (draw : ℕ → Draw)
    (drawn : (n : ℕ) → is_datetime (draw n).now ≡ true)
    (apart : (j k : ℕ) → suc j ≤ k → ((draw j).uuid == (draw k).uuid) ≡ false)
    (accepts : Alert F → Bool) (takes_all : (a : Alert F) → accepts a ≡ true)
    (answers : Sent F → Delivery F) (exists : (x : Sent F) → (answers x).area_exists ≡ true)
    (order_by : Table F → Table F)
    (sorts : (p : AlertRow F → Bool) (t : Table F) → any p (order_by t) ≡ any p t) where
  select_alerts-critical :
      (msg : TelemetryMessage F) (thresholds : List (AreaThreshold F)) (e : Engine F R H)
      (thr : AreaThreshold F) (p : String) (v : F) (xs ys : List (String × F)) (s : Service F)
      (user : UserContext) (limit : ℕ) (q : Report F → Bool)
      → as_param_dict msg.measurements ≡ xs ++ (p, v) ∷ ys
      → last_for p thresholds ≡ some thr
      → beyond upper thr.critical_hi v ≡ true
      → is_datetime msg.ts ≡ true
      → s.running ≡ true
      → IsAhead draw e.drawn s.table
      → elem msg.area_id user.area_ids ≡ true
      → length (
          order_by (
            keep_if
              (visible user.area_ids (some high) none)
              (consume (new_deliveries is_datetime draw accepts answers msg thresholds e) s).table))
        ≤ limit
      → q (critical_report msg (readings_before msg e) thr p v) ≡ true
      → any
          (λ r. q (report_of r.alert))
          (select_alerts order_by user.area_ids
            (some high)
            none
            limit
            0
            (consume (new_deliveries is_datetime draw accepts answers msg thresholds e) s).table)
        ≡ true
  unfolding select_alerts
  select_alerts-critical msg thresholds e thr p v xs ys s user limit q measured bound over readable
        on ahead own fits shown =
      let seen : AlertRow F → Bool = λ r. q (report_of r.alert) in
      let table =
        (consume (new_deliveries is_datetime draw accepts answers msg thresholds e) s).table in
      let rows = rows_of answers (sent_alerts draw accepts msg thresholds e) in
      let grown : table ≡ s.table ++ rows =
        new_deliveries-appended is_datetime draw drawn apart accepts answers exists msg thresholds e
          s on readable ahead in
      let q' = in_view user q in
      let sent =
        sent_alerts-critical draw accepts takes_all msg thresholds e thr p v xs ys q' measured bound
          over (ground (arith, own, shown)) in
      let stored : any (λ r. q' (report_of r.alert)) table ≡ true =
        ap (any (λ r. q' (report_of r.alert))) grown
        ∙ any-append (λ r. q' (report_of r.alert)) s.table rows
        ∙ ground
            (arith, any-rows_of answers q' (sent_alerts draw accepts msg thresholds e), sent) in
      ap (any seen)
        (take-all limit (order_by (keep_if (visible user.area_ids (some high) none) table)) fits)
      ∙ sorts seen (keep_if (visible user.area_ids (some high) none) table)
      ∙ any-in_view user q table
      ∙ stored

  module _ (str_of : F → String) where
    -- A reading above the upper critical bound reaches the dashboard: a message whose ts is a time, with
    -- a value above that bound of the threshold which the rule engine has for its parameter, leaves the
    -- table of the alert service, once its records are consumed, such that every user who has the area
    -- and lists the alerts of high severity gets a list with an alert of the kind threshold with the
    -- area, the sensor, the parameter and the time of the reading and with the texts of its value and of
    -- the bound: any test of these fields that they pass is passed by an alert in the list. The producer
    -- takes the alerts, the areas exist, the ids drawn differ and are new, the consumer runs, and the
    -- limit is from 1 to 1000 and not below the number of alerts of high severity in the user's areas.
    pub list_user_alerts-critical :
        (msg : TelemetryMessage F) (thresholds : List (AreaThreshold F)) (e : Engine F R H)
        (thr : AreaThreshold F) (p : String) (v : F) (xs ys : List (String × F)) (s : Service F)
        (user : UserContext) (limit : ℕ) (q : Report String → Bool)
        → as_param_dict msg.measurements ≡ xs ++ (p, v) ∷ ys
        → last_for p thresholds ≡ some thr
        → beyond upper thr.critical_hi v ≡ true
        → is_datetime msg.ts ≡ true
        → s.running ≡ true
        → IsAhead draw e.drawn s.table
        → elem msg.area_id user.area_ids ≡ true
        → length (
            order_by (
              keep_if
                (visible user.area_ids (some high) none)
                (consume
                  (new_deliveries is_datetime draw accepts answers msg thresholds e)
                  s).table))
          ≤ limit
        → 1 ≤ limit
        → limit ≤ 1000
        → q (shown_report str_of (critical_report msg (readings_before msg e) thr p v)) ≡ true
        → lists q (
            list_user_alerts str_of order_by
              (some high)
              none
              limit
              0
              (consume (new_deliveries is_datetime draw accepts answers msg thresholds e) s).table
              user)
          ≡ true
    unfolding list_user_alerts get_alerts_for_user
    list_user_alerts-critical msg thresholds e thr p v xs ys s user limit q measured bound over
          readable on ahead own fits low high_enough shown =
        let table =
          (consume (new_deliveries is_datetime draw accepts answers msg thresholds e) s).table in
        let rows = select_alerts order_by user.area_ids (some high) none limit 0 table in
        let found =
          select_alerts-critical msg thresholds e thr p v xs ys s user limit
            (λ r. q (shown_report str_of r)) measured bound over readable on ahead own fits shown in
        let in_bounds : not (leb 1 limit && leb limit 1000) ≡ false =
          ground (arith, low, high_enough) in
        rw in_bounds (any-map (alert_to_dict str_of) (λ i. q (report_of_item i)) rows ∙ found)
