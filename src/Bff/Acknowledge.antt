-- ===== src/Bff/Acknowledge.antt =====
-- `ack_alert` of services/dashboard-bff/src/dashboard_bff/api.py, which passes a request on to the alert
-- service, in front of that service.
use flood_monitoring_and_man.Common.{
  String, [], ◌∷◌, none, some, true, false, not, ◌≡◌, refl, arith, ◌∙◌, leb, if◌then◌else◌, nat_eq,
  inl, inr, Bool-cases,
}
use Prim.Native.String.{count}
use flood_monitoring_and_man.Auth.Api.{Reply, ok, http_error}
use flood_monitoring_and_man.Alerts.Table.{
  AlertRow, Table, is_none, get_alert_by_id, acknowledge_row, acknowledge_alert,
}
use flood_monitoring_and_man.Alerts.Table.Once.{get_alert_by_id-acknowledge}
use flood_monitoring_and_man.Alerts.Api.{ack_alert}
use flood_monitoring_and_man.Bff.Scope.{UserContext}

-- 204 is passed on, 404 is passed on, and any other status is a 502.
abbrev pub reply_of : Reply Unit → Reply Unit
reply_of (ok u) = ok u
reply_of (http_error n) = if nat_eq n 404 then http_error 404 else http_error 502

module _ {F : Type 0} where
  -- `reason: str = Query(..., min_length=1)`; the alert service is reached in time.
  unfoldable pub user_ack_alert :
      String → String → String → Table F → UserContext → Table F × Reply Unit
  unfolding ack_alert
  user_ack_alert id now reason t user =
      let (after, reply) = ack_alert id now user.user_id reason t in
      if leb 1 (count reason) then (after, reply_of reply) else (t, http_error 422)

  updated-get_alert_by_id :
      (id now user reason : String) (t : Table F)
      → (acknowledge_alert id now user reason t).1
        ≡ (elim (get_alert_by_id id t) [ none ↦ false | some r ↦ is_none r.acknowledged_at ])
  unfolding get_alert_by_id acknowledge_alert
  updated-get_alert_by_id id now user reason [] = refl
  updated-get_alert_by_id id now user reason (r ∷ t) =
      ground (arith, updated-get_alert_by_id id now user reason t)

  kept-get_alert_by_id :
      (id now user reason : String) (t : Table F)
      → (acknowledge_alert id now user reason t).1 ≡ false
      → (acknowledge_alert id now user reason t).0 ≡ t
  unfolding acknowledge_alert acknowledge_row
  kept-get_alert_by_id id now user reason [] h = refl
  kept-get_alert_by_id id now user reason (r ∷ t) h =
      ground (arith, kept-get_alert_by_id id now user reason t)

  -- An alert that is stored and not acknowledged is acknowledged in the user's name for any reason of 1
  -- to 1000 characters; the areas of the user are not asked for.
  pub user_ack_alert-acknowledged :
      (id now reason : String) (t : Table F) (user : UserContext) (r : AlertRow F)
      → leb 1 (count reason) ≡ true
      → leb (count reason) 1000 ≡ true
      → get_alert_by_id id t ≡ some r
      → is_none r.acknowledged_at ≡ true
      → ((user_ack_alert id now reason t user).1 ≡ ok tt)
        × (get_alert_by_id id (user_ack_alert id now reason t user).0
            ≡ some (record r {
              acknowledged_at = some now;
              acknowledged_by = some user.user_id;
              ack_reason = some reason;
            }))
  unfolding user_ack_alert ack_alert acknowledge_row
  user_ack_alert-acknowledged id now reason t user r low high found unset = ground (
    arith,
    low,
    high,
    found,
    unset,
    updated-get_alert_by_id id now user.user_id reason t,
    get_alert_by_id-acknowledge id now user.user_id reason t,
  )

  -- Every other request leaves the table as it is: the reply is 422 for an empty reason, 502 for one of
  -- more than 1000 characters, and 404 where the alert is not stored or is acknowledged already.
  pub user_ack_alert-refused :
      (id now reason : String) (t : Table F) (user : UserContext)
      → (leb 1 (count reason) ≡ true
          → leb (count reason) 1000 ≡ true
          → (elim (get_alert_by_id id t) [ none ↦ false | some r ↦ is_none r.acknowledged_at ])
            ≡ false)
      → user_ack_alert id now reason t user ≡ (
        t,
        if not (leb 1 (count reason))
            then http_error 422
            else if leb (count reason) 1000
            then http_error 404
            else http_error 502,
      )
  unfolding user_ack_alert ack_alert
  user_ack_alert-refused id now reason t user closed = elim (Bool-cases (leb 1 (count reason))) [
    | inr empty ↦ ground (arith, empty)
    | inl low ↦ elim (Bool-cases (leb (count reason) 1000)) [
      | inr long ↦ ground (arith, low, long)
      | inl high ↦
          let missed = updated-get_alert_by_id id now user.user_id reason t ∙ closed low high in
          ground
            (arith, low, high, missed, kept-get_alert_by_id id now user.user_id reason t missed)
    ]
  ]
