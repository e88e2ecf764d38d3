-- ===== src/Alerts/WireTests.antt =====
-- The theorems about alerts on their way to the alert service at concrete inputs.
use flood_monitoring_and_man.Common.{
  ℕ, ◌+◌, [], ◌∷◌, ◌++◌, some, none, ◌≡◌, refl, string_eq, length, if◌then◌else◌,
}
use flood_monitoring_and_man.Samples.{hundredths, counters, latest_keys, draws, envelope, message}
use flood_monitoring_and_man.Samples.Alerts.{is_datetime, water, engine, accept_all, answers}
use flood_monitoring_and_man.Samples.Draws.{tallies, tallies_apart}
use flood_monitoring_and_man.Wire.Validation.{TelemetryMessage}
use flood_monitoring_and_man.RuleEngine.Models.{Alert, empty_context, Kind, high}
use flood_monitoring_and_man.Alerts.Table.{get_alert_by_id}
use flood_monitoring_and_man.Alerts.Wire.Appended.{rows_of, new_deliveries-appended}
use flood_monitoring_and_man.Alerts.Consumer.{Service, new_service, consume}
use flood_monitoring_and_man.Alerts.Wire.{dump_alert, validate_alert}
use flood_monitoring_and_man.Alerts.Wire.RoundTrip.{is_sendable, validate_alert-dump}
use flood_monitoring_and_man.Alerts.Wire.Stored.{
  sent_alerts, new_deliveries, new_deliveries-dropped,
}

abbrev bad_message : TelemetryMessage ℕ
bad_message = record { envelope = record envelope { ts = "bad" }; ingested_at = "u" }

abbrev service : Service ℕ
service = new_service

new_deliveries-dropped_example :
    consume
      (new_deliveries is_datetime draws accept_all answers bad_message (water ∷ []) engine)
      service
    ≡ record service {
      consumed =
          service.consumed + length (sent_alerts draws accept_all bad_message (water ∷ []) engine);
    }
new_deliveries-dropped_example =
    new_deliveries-dropped is_datetime draws (λ n. refl) accept_all answers bad_message (water ∷ [])
      engine service refl refl

abbrev escalation : Alert ℕ
escalation = record {
  alert_id = "id2";
  kind = Kind.priority;
  severity = high;
  area_id = "a";
  sensor_id = some "s";
  parameter = some "rainfall_mm_h";
  value = none;
  threshold_value = none;
  ts_event = "t";
  ts_emitted = "12:00";
  context = record empty_context { originating_alert_id = some "id" };
}

validate_alert-dump_example :
    validate_alert is_datetime (dump_alert escalation)
    ≡ (if is_sendable is_datetime escalation then some escalation else none)
validate_alert-dump_example = validate_alert-dump is_datetime escalation

new_deliveries-appended_example :
    (consume
      (new_deliveries is_datetime tallies accept_all answers message (water ∷ []) engine)
      service).table
    ≡ [] ++ rows_of answers (sent_alerts tallies accept_all message (water ∷ []) engine)
unfolding get_alert_by_id
new_deliveries-appended_example =
    new_deliveries-appended is_datetime tallies (λ n. refl) tallies_apart accept_all answers
      (λ x. refl) message (water ∷ []) engine service refl refl (λ k above. refl)
