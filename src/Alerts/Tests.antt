-- ===== src/Alerts/Tests.antt =====
-- The theorems about the alert service at concrete inputs.
use flood_monitoring_and_man.Common.{ℕ, String, List, [], ◌∷◌, none, some, true, refl, string_eq}
use flood_monitoring_and_man.RuleEngine.Models.{
  Alert, Severity, high, medium, malfunction, empty_context,
}
use flood_monitoring_and_man.Alerts.Table.{Table, new_row}
use flood_monitoring_and_man.Alerts.Consumer.{Delivery, Raw, valid, invalid, new_service, consume}
use flood_monitoring_and_man.Alerts.Consumer.Channels.{IsAnnounced, consume-IsAnnounced_from_start}

abbrev alert_of : String → Severity → Alert ℕ
alert_of id severity = record {
  alert_id = id;
  kind = malfunction;
  severity = severity;
  area_id = "a";
  sensor_id = some "s";
  parameter = none;
  value = none;
  threshold_value = none;
  ts_event = "t";
  ts_emitted = "u";
  context = empty_context;
}

abbrev delivery : Raw ℕ → Delivery ℕ
delivery raw = record {
  raw = raw;
  now = "12:00";
  area_exists = true;
  area_published = true;
  high_published = true;
}

abbrev alerts : Table ℕ
alerts = new_row "12:00" (alert_of "x" high) ∷ new_row "12:01" (alert_of "y" medium) ∷ []

-- Two alerts, the first twice, and a record that is no alert.
abbrev deliveries : List (Delivery ℕ)
deliveries =
    delivery (valid (alert_of "x" high))
    ∷ delivery (valid (alert_of "x" high))
    ∷ delivery invalid
    ∷ delivery (valid (alert_of "y" medium))
    ∷ []

consume-IsAnnounced_from_start_example : IsAnnounced (consume deliveries new_service)
consume-IsAnnounced_from_start_example =
    consume-IsAnnounced_from_start deliveries
      ((refl, refl), ((refl, refl), ((refl, refl), ((refl, refl), tt))))
