-- ===== src/RuleEngine/Consumer/Emission.antt =====
-- What one message sends to Kafka, and how it is counted.
use flood_monitoring_and_man.Common.{
  ℕ, ◌+◌, String, List, [], ◌∷◌, ◌++◌, Bool, true, false, string_eq, map, ◌&&◌, length,
  if◌then◌else◌, ◌≡◌, keep_if, arith, append_assoc, append-nil, sym,
}
use flood_monitoring_and_man.Common.Float.{Float}
use flood_monitoring_and_man.Common.HotState.{HotState}
use flood_monitoring_and_man.Common.Int.{ℤ}
use flood_monitoring_and_man.Common.Redis.{Redis, fault_count}
use flood_monitoring_and_man.Wire.Parameters.{as_param_dict}
use flood_monitoring_and_man.Wire.Validation.{TelemetryMessage}
use flood_monitoring_and_man.RuleEngine.Models.{
  Alert, AreaThreshold, Draw, kafka_topic, Kind, Severity, threshold, malfunction, priority, low,
  medium, high,
}
use flood_monitoring_and_man.RuleEngine.Evaluator.{evaluate_thresholds}
use flood_monitoring_and_man.RuleEngine.Redundancy.{
  Metric, alerts_emitted, Tracker, on_sensor_reading, fault_loop, handle_fault, handle_recovery,
  fault_alerts, fault_metrics, decrement,
}
use flood_monitoring_and_man.RuleEngine.Consumer.{
  Sent, Engine, Outbox, emit_alert, emit_all, update_params, process_with,
}

abbrev same_kind : Kind → Kind → Bool
same_kind threshold threshold = true
same_kind malfunction malfunction = true
same_kind priority priority = true
same_kind _ _ = false

abbrev same_severity : Severity → Severity → Bool
same_severity low low = true
same_severity medium medium = true
same_severity high high = true
same_severity _ _ = false

-- The value of `ALERTS_EMITTED` for a kind and a severity.
abbrev pub emitted_count : Kind → Severity → List Metric → ℕ
emitted_count k s [] = 0
emitted_count k s (alerts_emitted k' s' ∷ ms) =
    (if same_kind k k' && same_severity s s' then 1 else 0) + emitted_count k s ms
emitted_count k s (m ∷ ms) = emitted_count k s ms

-- How many alerts of a list have a kind and a severity.
abbrev pub alert_count : {F : Type 0} → Kind → Severity → List (Alert F) → ℕ
alert_count k s [] = 0
alert_count k s (a ∷ rest) =
    (if same_kind k a.kind && same_severity s a.severity then 1 else 0) + alert_count k s rest

abbrev pub sent_of : {F : Type 0} → Alert F → Sent F
sent_of a = record { topic = kafka_topic a; key = a.area_id; alert = a }

emitted_count-append :
    (k : Kind) (s : Severity) (ms ns : List Metric)
    → emitted_count k s (ms ++ ns) ≡ emitted_count k s ms + emitted_count k s ns
emitted_count-append k s [] ns = omega arith
emitted_count-append k s (alerts_emitted k' s' ∷ ms) ns =
    omega (arith, emitted_count-append k s ms ns)
emitted_count-append k s (m ∷ ms) ns = emitted_count-append k s ms ns

module _ {F : Type 0} (accepts : Alert F → Bool) where
  -- The alerts that the producer accepts are sent in their order, each to the topic of its kind and
  -- under its area; one that is refused stops none of the others.
  pub sent-emit_all :
      (alerts : List (Alert F)) (o : Outbox F)
      → (emit_all accepts alerts o).sent ≡ o.sent ++ map sent_of (keep_if accepts alerts)
  unfolding emit_all emit_alert
  sent-emit_all [] o = sym (append-nil o.sent)
  sent-emit_all (a ∷ rest) o = ground (
    arith,
    sent-emit_all rest (emit_alert accepts a o),
    append_assoc o.sent (sent_of a ∷ []) (map sent_of (keep_if accepts rest)),
  )

  emitted_count-emit_all :
      (k : Kind) (s : Severity) (alerts : List (Alert F)) (o : Outbox F)
      → emitted_count k s (emit_all accepts alerts o).metrics
        ≡ emitted_count k s o.metrics + alert_count k s (keep_if accepts alerts)
  unfolding emit_all emit_alert
  emitted_count-emit_all k s [] o = omega arith
  emitted_count-emit_all k s (a ∷ rest) o = ground (
    arith,
    emitted_count-emit_all k s rest (emit_alert accepts a o),
    emitted_count-append k s o.metrics (alerts_emitted a.kind a.severity ∷ []),
  )

alert_count-append :
    {F : Type 0} (k : Kind) (s : Severity) (as_ bs : List (Alert F))
    → alert_count k s (as_ ++ bs) ≡ alert_count k s as_ + alert_count k s bs
alert_count-append k s [] bs = omega arith
alert_count-append k s (a ∷ as_) bs = omega (arith, alert_count-append k s as_ bs)

module _ (F : Type 0) (draw : ℕ → Draw) (sensor a ts : String) where
  fault_counted :
      (k : Kind) (s : Severity) (n : ℕ) (p : String) (c : ℤ)
      → emitted_count k s (fault_metrics c)
        ≡ alert_count k s (fault_alerts F draw sensor a ts n p c)
  unfolding fault_metrics fault_alerts
  fault_counted k s n p c = ground arith

module _ {R : Type 0} ⦃d : Redis R⦄ (F : Type 0) (draw : ℕ → Draw) (sensor a ts : String) where
  fault_loop_counted :
      (k : Kind) (s : Severity) (n : ℕ) (ps : List String) (t : Tracker R)
      → let (t', alerts) = fault_loop F draw sensor a ts n ps t in
        emitted_count k s t'.metrics ≡ emitted_count k s t.metrics + alert_count k s alerts
  unfolding fault_loop
  fault_loop_counted k s n [] t = omega arith
  fault_loop_counted k s n (p ∷ ps) t =
      let (r, c) = decrement a p t.redis in
      let alerts = fault_alerts F draw sensor a ts n p c in
      let t' : Tracker R = record { redis = r; metrics = t.metrics ++ fault_metrics c } in
      omega (
        arith,
        fault_loop_counted k s (n + length alerts) ps t',
        emitted_count-append k s t.metrics (fault_metrics c),
        fault_counted F draw sensor a ts k s n p c,
        alert_count-append k s alerts (fault_loop F draw sensor a ts (n + length alerts) ps t').1,
      )

  reading_counted :
      (k : Kind) (s : Severity) (n : ℕ) (ps : List String) (up : Bool) (t : Tracker R)
      → let (t', alerts) = on_sensor_reading F draw n sensor a ps up ts t in
        emitted_count k s t'.metrics ≡ emitted_count k s t.metrics + alert_count k s alerts
  unfolding on_sensor_reading handle_fault handle_recovery
  reading_counted k s n ps true t = omega arith
  reading_counted k s n ps false t =
      let (r, c) = d.incr (fault_count sensor) t.redis in
      let t' : Tracker R = record t { redis = d.expire (fault_count sensor) 3600 r } in
      ground (arith, fault_loop_counted k s n ps t')

module _ {F R H : Type 0} ⦃f : Float F⦄ ⦃d : Redis R⦄ (draw : ℕ → Draw) (event : TelemetryMessage F)
    (thresholds : List (AreaThreshold F)) (e : Engine F R H) where
  -- The alerts of the evaluator, over the histories from before the event, and those of the tracker
  -- for the event's parameters and status.
  abbrev pub threshold_alerts : List (Alert F)
  threshold_alerts =
      evaluate_thresholds draw event e.drawn thresholds
        (update_params event.sensor_id (as_param_dict event.measurements) e.history).1

  abbrev pub redundancy_alerts : List (Alert F)
  redundancy_alerts =
      (on_sensor_reading F draw (e.drawn + length threshold_alerts) event.sensor_id event.area_id
        (map (λ i. i.0) (as_param_dict event.measurements)) event.status event.ts e.tracker).1

module _ {F R H : Type 0} ⦃f : Float F⦄ ⦃d : Redis R⦄ ⦃s : HotState H (TelemetryMessage F)⦄
    (draw : ℕ → Draw) (accepts : Alert F → Bool) (event : TelemetryMessage F)
    (thresholds : List (AreaThreshold F)) (e : Engine F R H) where
  -- A message sends, after all that was sent before, the alerts of the evaluator and then those of
  -- the tracker that the producer accepts, each to the topic of its kind and under its area.
  pub sent-process_with :
      (process_with draw accepts event thresholds e).sent
      ≡ e.sent
        ++ map sent_of (
            keep_if accepts (
              threshold_alerts draw event thresholds e
              ++ redundancy_alerts draw event thresholds e))
  unfolding process_with
  sent-process_with =
      sent-emit_all accepts
        (threshold_alerts draw event thresholds e ++ redundancy_alerts draw event thresholds e) _

  -- The counter of emitted alerts of a kind and severity grows by the alerts that the producer
  -- accepts and, once more, by those that the tracker built: an accepted alert of the tracker is
  -- counted twice, and a refused one once.
  pub emitted_count-process_with :
      (k : Kind) (v : Severity)
      → emitted_count k v (process_with draw accepts event thresholds e).tracker.metrics
        ≡ emitted_count k v e.tracker.metrics
          + alert_count k v (
              keep_if accepts (
                threshold_alerts draw event thresholds e
                ++ redundancy_alerts draw event thresholds e))
          + alert_count k v (redundancy_alerts draw event thresholds e)
  unfolding process_with
  emitted_count-process_with k v = omega (
    arith,
    emitted_count-emit_all accepts k v
        (threshold_alerts draw event thresholds e ++ redundancy_alerts draw event thresholds e)
        (record {
          sent = e.sent;
          metrics =
              (on_sensor_reading F draw
                (e.drawn + length (threshold_alerts draw event thresholds e)) event.sensor_id
                event.area_id (map (λ i. i.0) (as_param_dict event.measurements)) event.status
                event.ts e.tracker).0.metrics;
        }),
    reading_counted F draw event.sensor_id event.area_id event.ts k v
        (e.drawn + length (threshold_alerts draw event thresholds e))
        (map (λ i. i.0) (as_param_dict event.measurements)) event.status e.tracker,
  )
