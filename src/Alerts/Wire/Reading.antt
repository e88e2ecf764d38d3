-- ===== src/Alerts/Wire/Reading.antt =====
-- What the consumer of the alert service does with alerts that were dumped.
use flood_monitoring_and_man.Common.{
  suc, ◌+◌, String, List, [], ◌∷◌, ◌++◌, none, some, Bool, true, false, ◌≡◌, arith, string_eq,
  if◌then◌else◌, All, map, length,
}
use flood_monitoring_and_man.RuleEngine.Models.{Alert}
use flood_monitoring_and_man.RuleEngine.Consumer.{Sent}
use flood_monitoring_and_man.RuleEngine.Consumer.Emission.{sent_of}
use flood_monitoring_and_man.Alerts.Table.{new_row, insert_alert}
use flood_monitoring_and_man.Alerts.Consumer.{
  valid, invalid, Delivery, Service, publish_to, publish, handle_raw, handle, consume,
}
use flood_monitoring_and_man.Alerts.Wire.{dump_alert, validate_alert, raw_of}

module _ {F : Type 0} where
  publish-running :
      (a : Alert F) (area high : Bool) (s : Service F) → (publish a area high s).running ≡ s.running
  unfolding publish publish_to
  publish-running a area high s = ground arith

  pub consume-running :
      (d : Delivery F) (ds : List (Delivery F)) (s : Service F)
      → s.running ≡ true
      → consume (d ∷ ds) s ≡ consume ds (handle d (record s { consumed = suc s.consumed }))
  unfolding consume
  consume-running d ds s on = ground (arith, on)

  pub running-handle :
      (d : Delivery F) (a : Alert F) (s : Service F)
      → d.raw ≡ valid a
      → d.area_exists ≡ true
      → (handle d s).running ≡ s.running
  unfolding handle handle_raw insert_alert
  running-handle d a s given exists = ground (
    arith,
    given,
    exists,
    publish-running a d.area_published d.high_published
        (record s { table = s.table ++ new_row d.now a ∷ []; persisted = suc s.persisted }),
  )

  -- The record that the alert service reads for one that was sent; the rest of its surroundings is
  -- given.
  abbrev pub delivery_of : (String → Bool) → (Sent F → Delivery F) → Sent F → Delivery F
  delivery_of is_datetime answers x = record (answers x) {
    raw = raw_of is_datetime (dump_alert x.alert);
  }

  -- Every one of these alerts is read as it was sent, or none is.
  abbrev pub ReadAs : (String → Bool) → Bool → Alert F → Type 0
  ReadAs is_datetime readable a =
      validate_alert is_datetime (dump_alert a) ≡ (if readable then some a else none)

  module _ (is_datetime : String → Bool) (answers : Sent F → Delivery F) where
    abbrev pub deliveries : List (Alert F) → List (Delivery F)
    deliveries as_ = map (delivery_of is_datetime answers) (map sent_of as_)

    pub raw_of-valid :
        (a : Alert F) → ReadAs is_datetime true a → raw_of is_datetime (dump_alert a) ≡ valid a
    unfolding raw_of
    raw_of-valid a read = ground (arith, read)

    raw_of-invalid :
        (a : Alert F) → ReadAs is_datetime false a → raw_of is_datetime (dump_alert a) ≡ invalid
    unfolding raw_of
    raw_of-invalid a read = ground (arith, read)

    pub consume-unreadable :
        (as_ : List (Alert F)) (s : Service F)
        → s.running ≡ true
        → All (ReadAs is_datetime false) as_
        → consume (deliveries as_) s ≡ record s { consumed = s.consumed + length as_ }
    unfolding consume handle handle_raw
    consume-unreadable [] s on read = ground arith
    consume-unreadable (a ∷ as_) s on read = ground (
      arith,
      raw_of-invalid a read.0,
      consume-unreadable as_ (record s { consumed = suc s.consumed }) on read.1,
    )
