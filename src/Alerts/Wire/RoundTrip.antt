-- ===== src/Alerts/Wire/RoundTrip.antt =====
-- What the alert service makes of an alert that was dumped.
use flood_monitoring_and_man.Common.{
  String, Option, none, some, Bool, ◌&&◌, ◌≡◌, refl, string_eq, if◌then◌else◌,
}
use flood_monitoring_and_man.RuleEngine.Models.{
  Alert, Kind, threshold, malfunction, priority, Severity, low, medium, high, Direction, rising,
  falling, stable,
}
use flood_monitoring_and_man.Alerts.Wire.{
  kind_text, severity_text, trend_text, parse_kind, parse_severity, parse_trend, dump_alert,
  is_parameter, is_count, has_valid_fields, validate_alert,
}

parse_kind-text : (k : Kind) → parse_kind (kind_text k) ≡ some k
unfolding parse_kind
parse_kind-text threshold = refl
parse_kind-text malfunction = refl
parse_kind-text priority = refl

parse_severity-text : (s : Severity) → parse_severity (severity_text s) ≡ some s
unfolding parse_severity
parse_severity-text low = refl
parse_severity-text medium = refl
parse_severity-text high = refl

parse_trend-text : (t : Option Direction) → parse_trend (trend_text t) ≡ some t
unfolding parse_trend
parse_trend-text none = refl
parse_trend-text (some rising) = refl
parse_trend-text (some falling) = refl
parse_trend-text (some stable) = refl

module _ {F : Type 0} (is_datetime : String → Bool) where
  -- The parameter is one of the six or none, the redundancy is no negative number, and both times are
  -- times.
  abbrev pub is_sendable : Alert F → Bool
  is_sendable a =
      is_parameter a.parameter
      && is_count a.context.redundancy_remaining
      && is_datetime a.ts_event
      && is_datetime a.ts_emitted

  -- An alert of the rule engine arrives at the alert service as it was, if its parameter is one of the
  -- six or none, its redundancy is not negative and both its times can be parsed, and else is refused.
  pub validate_alert-dump :
      (a : Alert F)
      → validate_alert is_datetime (dump_alert a) ≡ (if is_sendable a then some a else none)
  unfolding dump_alert validate_alert has_valid_fields
  validate_alert-dump a =
      rw
        (
          validate_alert,
          parse_kind-text a.kind,
          parse_severity-text a.severity,
          parse_trend-text a.context.trend,
        )
        refl
