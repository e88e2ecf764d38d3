-- ===== src/Alerts/Wire/Appended.antt =====
-- The rows that one message at the rule engine adds to the table of the alert service.
use flood_monitoring_and_man.Common.{
  ℕ, suc, ◌≤◌, String, List, [], ◌∷◌, ◌++◌, none, Bool, true, false, ◌≡◌, arith, ◌==◌, string_eq,
  All, append_assoc, append-nil, ap, sym, subst, ◌∙◌,
}
use flood_monitoring_and_man.Common.Float.{Float}
use flood_monitoring_and_man.Common.HotState.{HotState}
use flood_monitoring_and_man.Common.Redis.{Redis}
use flood_monitoring_and_man.Wire.Validation.{TelemetryMessage}
use flood_monitoring_and_man.RuleEngine.Models.{Alert, AreaThreshold, Draw}
use flood_monitoring_and_man.RuleEngine.Consumer.{Sent, Engine}
use flood_monitoring_and_man.RuleEngine.Consumer.Emission.{sent_of}
use flood_monitoring_and_man.Alerts.Table.{Table, get_alert_by_id, new_row, insert_alert}
use flood_monitoring_and_man.Alerts.Table.Once.{get_alert_by_id-append}
use flood_monitoring_and_man.Alerts.Consumer.{Delivery, Service, handle_raw, handle, consume, valid}
use flood_monitoring_and_man.Alerts.Consumer.Replay.{publish-table}
use flood_monitoring_and_man.Alerts.Wire.Ids.{AreDrawn, alerts_for-AreDrawn}
use flood_monitoring_and_man.Alerts.Wire.Reading.{
  delivery_of, ReadAs, deliveries, raw_of-valid, consume-running, running-handle,
}
use flood_monitoring_and_man.Alerts.Wire.Stored.{
  sent_alerts, new_deliveries, new_deliveries-sent_alerts, sent_alerts-ReadAs,
}

module _ {F : Type 0} where
  handle-appended :
      (d : Delivery F) (a : Alert F) (s : Service F)
      → d.raw ≡ valid a
      → d.area_exists ≡ true
      → get_alert_by_id a.alert_id s.table ≡ none
      → (handle d s).table ≡ s.table ++ new_row d.now a ∷ []
  unfolding handle handle_raw insert_alert
  handle-appended d a s given exists new = ground (
    arith,
    given,
    exists,
    new,
    publish-table a d.area_published d.high_published
        (record s { table = s.table ++ new_row d.now a ∷ []; persisted = suc s.persisted }),
  )

  get_alert_by_id-other :
      (id now : String) (a : Alert F) (t : Table F)
      → get_alert_by_id id t ≡ none
      → (a.alert_id == id) ≡ false
      → get_alert_by_id id (t ++ new_row now a ∷ []) ≡ none
  unfolding get_alert_by_id
  get_alert_by_id-other id now a t new other =
      ground (arith, get_alert_by_id-append id t (new_row now a ∷ []), new, other)

  -- The rows of alerts, each with the time of its insertion.
  abbrev pub rows_of : (Sent F → Delivery F) → List (Alert F) → Table F
  rows_of answers [] = []
  rows_of answers (a ∷ as_) =
      record {
        alert = a;
        ts_persisted = (answers (sent_of a)).now;
        acknowledged_at = none;
        acknowledged_by = none;
        ack_reason = none;
      }
      ∷ rows_of answers as_

  -- No alert of the table has an id that is still to be drawn.
  abbrev pub IsAhead : (ℕ → Draw) → ℕ → Table F → Type 0
  IsAhead draw n t = (k : ℕ) → n ≤ k → get_alert_by_id (draw k).uuid t ≡ none

  module _ (is_datetime : String → Bool) (answers : Sent F → Delivery F) (draw : ℕ → Draw)
      (apart : (j k : ℕ) → suc j ≤ k → ((draw j).uuid == (draw k).uuid) ≡ false)
      (exists : (x : Sent F) → (answers x).area_exists ≡ true) where
    consume-appended :
        (as_ : List (Alert F)) (n : ℕ) (s : Service F)
        → s.running ≡ true
        → All (ReadAs is_datetime true) as_
        → AreDrawn draw n as_
        → IsAhead draw n s.table
        → (consume (deliveries is_datetime answers as_) s).table ≡ s.table ++ rows_of answers as_
    unfolding consume
    consume-appended [] n s on read drawn ahead = sym (append-nil s.table)
    consume-appended (a ∷ as_) n s on read (k, (above, (is, rest))) ahead =
        let d = delivery_of is_datetime answers (sent_of a) in
        let s' : Service F = record s { consumed = suc s.consumed } in
        let given = raw_of-valid is_datetime answers a read.0 in
        let on' = running-handle d a s' given (exists (sent_of a)) ∙ on in
        let new : get_alert_by_id a.alert_id s.table ≡ none = rw is (ahead k above) in
        let grown = handle-appended d a s' given (exists (sent_of a)) new in
        let ahead' : IsAhead draw (suc k) (handle d s').table = λ j later.
          ap (get_alert_by_id (draw j).uuid) grown
          ∙ get_alert_by_id-other (draw j).uuid d.now a s.table
              (ahead j (omega (arith, above, later)))
              (ap (λ i. i == (draw j).uuid) is ∙ apart k j later) in
        ap (λ q. q.table) (consume-running d (deliveries is_datetime answers as_) s on)
        ∙ consume-appended as_ (suc k) (handle d s') on' read.1 rest ahead'
        ∙ ap (λ t. t ++ rows_of answers as_) grown
        ∙ append_assoc s.table (new_row d.now a ∷ []) (rows_of answers as_)

module _ {F R H : Type 0} ⦃f : Float F⦄ ⦃d : Redis R⦄ ⦃h : HotState H (TelemetryMessage F)⦄
    (is_datetime : String → Bool) (draw : ℕ → Draw)
    (drawn : (n : ℕ) → is_datetime (draw n).now ≡ true)
    (apart : (j k : ℕ) → suc j ≤ k → ((draw j).uuid == (draw k).uuid) ≡ false)
    (accepts : Alert F → Bool) (answers : Sent F → Delivery F)
    (exists : (x : Sent F) → (answers x).area_exists ≡ true) (msg : TelemetryMessage F)
    (thresholds : List (AreaThreshold F)) (e : Engine F R H) where
  -- Where the ids that are drawn differ and none is in the table yet, the areas exist and the times can
  -- be parsed: once the records of a message are consumed, the table has one new row for each alert that
  -- the producer took for it, in their order, each as it was built and not acknowledged, and nothing
  -- else has changed in it.
  pub new_deliveries-appended :
      (s : Service F)
      → s.running ≡ true
      → is_datetime msg.ts ≡ true
      → IsAhead draw e.drawn s.table
      → (consume (new_deliveries is_datetime draw accepts answers msg thresholds e) s).table
        ≡ s.table ++ rows_of answers (sent_alerts draw accepts msg thresholds e)
  new_deliveries-appended s on readable ahead =
      let as_ = sent_alerts draw accepts msg thresholds e in
      ap (λ ds. (consume ds s).table)
        (new_deliveries-sent_alerts is_datetime draw accepts answers msg thresholds e)
      ∙ consume-appended is_datetime answers draw apart exists as_ e.drawn s on
          (subst (λ b. All (ReadAs is_datetime b) as_) readable
            (sent_alerts-ReadAs is_datetime draw drawn accepts answers msg thresholds e))
          (alerts_for-AreDrawn draw accepts msg thresholds e) ahead
