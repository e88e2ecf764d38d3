-- ===== src/Alerting/Tests.antt =====
-- The theorem about the way of a critical reading at a concrete input.
use flood_monitoring_and_man.Common.{
  ℕ, [], ◌∷◌, some, none, Bool, true, false, String, ◌==◌, if◌then◌else◌, ◌≡◌, refl, arith,
  string_eq, nat_eq,
}
use flood_monitoring_and_man.Samples.{hundredths, counters, latest_keys, message}
use flood_monitoring_and_man.Wire.Parameters.{as_param_dict}
use flood_monitoring_and_man.RuleEngine.Models.{high}
use flood_monitoring_and_man.RuleEngine.Evaluator.Expected.{Report, last_for}
use flood_monitoring_and_man.Alerts.Consumer.{Service, new_service, consume}
use flood_monitoring_and_man.Alerts.Wire.Stored.{new_deliveries}
use flood_monitoring_and_man.Bff.Scope.{UserContext}
use flood_monitoring_and_man.Bff.Views.{list_user_alerts}
use flood_monitoring_and_man.Alerts.Table.{get_alert_by_id}
use flood_monitoring_and_man.Alerts.Consumer.{handle, handle_raw}
use flood_monitoring_and_man.Alerts.Wire.{raw_of, dump_alert}
use flood_monitoring_and_man.RuleEngine.Consumer.{process_with, emit_all, update_params}
use flood_monitoring_and_man.RuleEngine.Evaluator.{evaluate_thresholds, evaluate_one}
use flood_monitoring_and_man.RuleEngine.History.{update_history}
use flood_monitoring_and_man.RuleEngine.Redundancy.{on_sensor_reading}
use flood_monitoring_and_man.RuleEngine.Trend.{compute_trend}
use flood_monitoring_and_man.Common.Dict.{lookup, insert}
use flood_monitoring_and_man.Samples.Alerts.{is_datetime, water, engine, accept_all, answers}
use flood_monitoring_and_man.Samples.Draws.{tallies, tallies_apart}
use flood_monitoring_and_man.Alerting.{lists, list_user_alerts-critical}

abbrev service : Service ℕ
service = new_service

abbrev ann : UserContext
ann = record {
  user_id = "u";
  email = "ann@example.org";
  role = "area_manager";
  jurisdiction = "a" ∷ [];
  area_ids = "a" ∷ [];
}

-- A text for each number.
abbrev decimal : ℕ → String
decimal v = if nat_eq v 310 then "3.1" else "0.0"

abbrev is_310 : Report String → Bool
is_310 r = elim r.value [ none ↦ false | some v ↦ v == "3.1" ]

list_user_alerts-critical_example :
    lists is_310 (
      list_user_alerts decimal
        (λ t. t)
        (some high)
        none
        100
        0
        (consume
          (new_deliveries is_datetime tallies accept_all answers message (water ∷ []) engine)
          service).table
        ann)
    ≡ true
unfolding as_param_dict last_for get_alert_by_id consume handle handle_raw raw_of dump_alert
    process_with emit_all evaluate_thresholds evaluate_one update_params update_history
    on_sensor_reading compute_trend lookup insert
list_user_alerts-critical_example =
    list_user_alerts-critical is_datetime tallies (λ n. refl) tallies_apart accept_all (λ a. refl)
      answers (λ x. refl) (λ t. t) (λ p t. refl) decimal message (water ∷ []) engine water
      "water_level_m" 310 [] [] service ann 100 is_310 refl refl refl refl refl (λ k above. refl)
      refl (omega arith) (omega arith) (omega arith) refl
