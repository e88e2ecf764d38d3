-- ===== src/Bff/Views.antt =====
-- The endpoints of services/dashboard-bff/src/dashboard_bff/api.py that read an area, a list of alerts
-- or a channel, and the queries of db.py behind them.
use flood_monitoring_and_man.Common.{
  ℕ, String, List, [], ◌∷◌, ◌++◌, Option, none, some, Bool, not, ◌&&◌, ◌==◌, string_eq,
  if◌then◌else◌, take, drop, keep_if, map, leb,
}
use flood_monitoring_and_man.RuleEngine.Models.{Severity}
use flood_monitoring_and_man.Telemetry.Rows.{Row}
use flood_monitoring_and_man.Alerts.Table.{AlertRow, Table, severity_matches, acknowledged_matches}
use flood_monitoring_and_man.Alerts.Consumer.{Channel, area_channel, high_severity}
use flood_monitoring_and_man.Auth.Api.{Reply, ok, http_error}
use flood_monitoring_and_man.Bff.Scope.{elem, UserContext}
use flood_monitoring_and_man.Bff.Shown.{AlertItem, telemetry_to_dict, alert_to_dict}

-- `Depends(get_current_user)`: an endpoint runs for a user, and a refusal is the reply.
abbrev pub with_user : {A : Type 0} → Reply UserContext → (UserContext → Reply A) → Reply A
with_user (ok user) endpoint = endpoint user
with_user (http_error n) endpoint = http_error n

module _ {F D : Type 0} (le : D → D → Bool) where
  -- The WHERE clause of `get_telemetry`.
  abbrev pub within : List String → Option D → Option D → Row F D → Bool
  within area_ids none none r = elem r.area_id area_ids
  within area_ids (some start) none r = elem r.area_id area_ids && le start r.ts
  within area_ids none (some end) r = elem r.area_id area_ids && le r.ts end
  within area_ids (some start) (some end) r =
      elem r.area_id area_ids && le start r.ts && le r.ts end

module _ {F D : Type 0} (le : D → D → Bool) (str_of : F → String) where
  -- `order_by` is what ORDER BY ts DESC makes of the rows.
  unfoldable pub get_telemetry :
      (List (Row F D) → List (Row F D))
      → List String
      → Option D
      → Option D
      → ℕ
      → List (Row F D)
      → List (Row String D)
  get_telemetry order_by area_ids start end limit rows =
      map (telemetry_to_dict str_of)
        (take limit (order_by (keep_if (within le area_ids start end) rows)))

  -- The framework answers 422 for a limit that is out of bounds, before the endpoint is called.
  unfoldable pub area_telemetry :
      (List (Row F D) → List (Row F D))
      → String
      → Option D
      → Option D
      → ℕ
      → List (Row F D)
      → UserContext
      → Reply (List (Row String D))
  unfolding get_telemetry
  area_telemetry order_by area start end limit rows user =
      if not (leb 1 limit && leb limit 5000)
      then http_error 422
      else if elem area user.area_ids
      then ok (get_telemetry order_by (area ∷ []) start end limit rows)
      else http_error 403

module _ {F : Type 0} where
  abbrev pub visible : List String → Option Severity → Option Bool → AlertRow F → Bool
  visible area_ids severity acknowledged r =
      elem r.alert.area_id area_ids
      && severity_matches severity r
      && acknowledged_matches acknowledged r

  -- The rows that `get_alerts_for_user` selects; `order_by` is what ORDER BY ts_emitted DESC makes of
  -- them.
  unfoldable pub select_alerts :
      (Table F → Table F) → List String → Option Severity → Option Bool → ℕ → ℕ → Table F → Table F
  select_alerts order_by area_ids severity acknowledged limit offset t =
      take limit (drop offset (order_by (keep_if (visible area_ids severity acknowledged) t)))

module _ {F : Type 0} (str_of : F → String) where
  unfoldable pub get_alerts_for_user :
      (Table F → Table F)
      → List String
      → Option Severity
      → Option Bool
      → ℕ
      → ℕ
      → Table F
      → List AlertItem
  unfolding select_alerts
  get_alerts_for_user order_by area_ids severity acknowledged limit offset t =
      map (alert_to_dict str_of)
        (select_alerts order_by area_ids severity acknowledged limit offset t)

  -- The endpoint `list_alerts`; the framework answers 422 for a limit that is out of bounds.
  unfoldable pub list_user_alerts :
      (Table F → Table F)
      → Option Severity
      → Option Bool
      → ℕ
      → ℕ
      → Table F
      → UserContext
      → Reply (List AlertItem)
  unfolding get_alerts_for_user
  list_user_alerts order_by severity acknowledged limit offset t user =
      if not (leb 1 limit && leb limit 1000)
      then http_error 422
      else ok (get_alerts_for_user order_by user.area_ids severity acknowledged limit offset t)

-- The channels of `ws_alerts`; `none` is the close with code 4003.
unfoldable pub ws_channels : UserContext → Option (List Channel)
ws_channels user =
    let areas = map area_channel user.area_ids in
    let channels = if user.role == "regional_manager" then areas ++ high_severity ∷ [] else areas in
    elim channels [ [] ↦ none | c ∷ cs ↦ some (c ∷ cs) ]
