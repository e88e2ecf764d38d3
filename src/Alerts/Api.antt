-- ===== src/Alerts/Api.antt =====
-- The endpoints of services/alert-service/src/alert_service/api.py for one alert. The table's statements
-- are in Table.
use flood_monitoring_and_man.Common.{String, none, some, Bool, ◌&&◌, if◌then◌else◌, leb}
use Prim.Native.String.{count}
use flood_monitoring_and_man.Auth.Api.{Reply, ok, http_error}
use flood_monitoring_and_man.Alerts.Table.{AlertRow, Table, get_alert_by_id, acknowledge_alert}

-- `AcknowledgeRequest`: min_length=1, max_length=1000.
abbrev pub valid_reason : String → Bool
valid_reason reason = leb 1 (count reason) && leb (count reason) 1000

module _ {F : Type 0} where
  unfoldable pub get_alert : String → Table F → Reply (AlertRow F)
  get_alert id t = elim (get_alert_by_id id t) [ none ↦ http_error 404 | some r ↦ ok r ]

  -- The framework answers 422 for a body that is not valid. The user is one of opdb.app_user, which the
  -- column acknowledged_by refers to.
  unfoldable pub ack_alert : String → String → String → String → Table F → Table F × Reply Unit
  ack_alert id now user reason t =
      let (after, updated) = acknowledge_alert id now user reason t in
      if valid_reason reason
      then (if updated then (after, ok tt) else (after, http_error 404))
      else (t, http_error 422)
