-- ===== src/Bff/AreaTests.antt =====
-- The theorems about the dashboard's areas, summaries, sockets and acknowledgements at concrete inputs.
use flood_monitoring_and_man.Common.{
  List, count_if, ℕ, String, [], ◌∷◌, Option, none, some, true, ◌≡◌, refl, string_eq, ◌==◌, leb,
  if◌then◌else◌, not,
}
use Prim.Native.String.{count}
use flood_monitoring_and_man.Samples.{hundredths, hundredths_laws, payload}
use flood_monitoring_and_man.RuleEngine.Models.{Alert, threshold, high, empty_context}
use flood_monitoring_and_man.Telemetry.Consumer.{Raw, json, unreadable}
use flood_monitoring_and_man.Auth.Api.{ok, http_error}
use flood_monitoring_and_man.Alerts.Table.{Table, new_row, get_alert_by_id}
use flood_monitoring_and_man.Geo.Samples.{tables, tables-IsLinked}
use flood_monitoring_and_man.Bff.Scope.{UserContext}
use flood_monitoring_and_man.Bff.HotState.{readings_of, get_area_summary}
use flood_monitoring_and_man.Bff.HotState.Extremes.{IsSummary, get_area_summary-IsSummary}
use flood_monitoring_and_man.Bff.Areas.{area_detail}
use flood_monitoring_and_man.Bff.Areas.Detail.{IsAnswer, area_detail-shown}
use flood_monitoring_and_man.Alerts.Consumer.{
  Delivery, valid, area_channel, high_severity, new_service, consume,
}
use flood_monitoring_and_man.Bff.Views.{ws_channels}
use flood_monitoring_and_man.Bff.Feed.{has_id, received, copies_of, received-consume}
use flood_monitoring_and_man.Bff.Acknowledge.{
  user_ack_alert, user_ack_alert-acknowledged, user_ack_alert-refused,
}

-- Two sensors' keys, of which one cannot be read.
abbrev keys : String → Option (Raw ℕ)
keys s = if s == "s" then some (json payload) else some unreadable

get_area_summary-IsSummary_example :
    IsSummary (readings_of keys ("s" ∷ "x" ∷ [])) (get_area_summary keys "a" ("s" ∷ "x" ∷ []))
get_area_summary-IsSummary_example =
    get_area_summary-IsSummary hundredths_laws keys "a" ("s" ∷ "x" ∷ [])

abbrev ann : UserContext
ann = record {
  user_id = "u";
  email = "ann@example.org";
  role = "area_manager";
  jurisdiction = "a" ∷ [];
  area_ids = "a" ∷ [];
}

-- A text for each number.
abbrev decimal : ℕ → String
decimal n = if leb n 300 then "3.0" else "5.0"

area_detail-shown_example :
    IsAnswer decimal tables "a" true true (area_detail keys decimal (λ rows. rows) tables "a" ann)
area_detail-shown_example =
    area_detail-shown decimal keys (λ rows. rows) tables "a" ann tables-IsLinked refl (λ r. refl)

-- An alert of an area that is not Ann's.
abbrev foreign_alert : Alert ℕ
foreign_alert = record {
  alert_id = "x";
  kind = threshold;
  severity = high;
  area_id = "b";
  sensor_id = none;
  parameter = none;
  value = none;
  threshold_value = none;
  ts_event = "t";
  ts_emitted = "u";
  context = empty_context;
}

abbrev one_alert : Table ℕ
one_alert = new_row "12:00" foreign_alert ∷ []

user_ack_alert-acknowledged_example :
    ((user_ack_alert "x" "12:05" "seen" one_alert ann).1 ≡ ok tt)
    × (get_alert_by_id "x" (user_ack_alert "x" "12:05" "seen" one_alert ann).0
        ≡ some (record (new_row "12:00" foreign_alert) {
          acknowledged_at = some "12:05";
          acknowledged_by = some "u";
          ack_reason = some "seen";
        }))
unfolding get_alert_by_id
user_ack_alert-acknowledged_example =
    user_ack_alert-acknowledged "x" "12:05" "seen" one_alert ann (new_row "12:00" foreign_alert)
      refl refl refl refl

user_ack_alert-refused_example : user_ack_alert "y" "12:05" "seen" one_alert ann ≡ (
  one_alert,
  if not (leb 1 (count "seen"))
      then http_error 422
      else if leb (count "seen") 1000
      then http_error 404
      else http_error 502,
)
unfolding get_alert_by_id
user_ack_alert-refused_example =
    user_ack_alert-refused "y" "12:05" "seen" one_alert ann (λ low high. refl)

-- An alert of high severity in an area of the user, twice.
abbrev records : List (Delivery ℕ)
records =
    let record_of_alert : Delivery ℕ = record {
      raw = valid (record foreign_alert { area_id = "a" });
      now = "12:00";
      area_exists = true;
      area_published = true;
      high_published = true;
    } in
    record_of_alert ∷ record_of_alert ∷ []

abbrev regional : UserContext
regional = record ann { role = "regional_manager" }

received-consume_example :
    count_if
      (has_id "x")
      (received (area_channel "a" ∷ high_severity ∷ []) (consume records new_service).published)
    ≡ copies_of regional (get_alert_by_id "x" (consume records new_service).table)
unfolding ws_channels
received-consume_example =
    received-consume records regional (area_channel "a" ∷ high_severity ∷ []) "x"
      ((refl, refl), ((refl, refl), tt)) refl
