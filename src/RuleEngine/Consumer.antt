-- ===== src/RuleEngine/Consumer.antt =====
-- `_emit_alert` and `RuleEngineConsumer._process` of services/rule-engine/src/rule_engine/consumer.py.
-- The loop over the topic calls `_process` for each message; what Kafka delivers and whether the
-- producer accepts an alert are arguments. A Redis command that fails is not modelled.
pub mod Emission
use flood_monitoring_and_man.Common.{
  ℕ, ◌+◌, ◌*◌, String, List, [], ◌∷◌, ◌++◌, Option, none, some, Bool, true, false, string_eq, map,
  length, if◌then◌else◌,
}
use flood_monitoring_and_man.Common.Dict.{Dict, lookup}
use flood_monitoring_and_man.Common.Float.{Float}
use flood_monitoring_and_man.Common.HotState.{HotState}
use flood_monitoring_and_man.Common.Redis.{Redis}
use flood_monitoring_and_man.Wire.Parameters.{as_param_dict}
use flood_monitoring_and_man.Wire.Validation.{Payload, TelemetryMessage, validate_message}
use flood_monitoring_and_man.RuleEngine.Models.{Alert, AreaThreshold, Draw, kafka_topic}
use flood_monitoring_and_man.RuleEngine.History.{History, update_history}
use flood_monitoring_and_man.RuleEngine.Evaluator.{evaluate_thresholds}
use flood_monitoring_and_man.RuleEngine.Redundancy.{
  Metric, alerts_emitted, events_evaluated, cache_hits, cache_misses, Tracker, on_sensor_reading,
}
use flood_monitoring_and_man.RuleEngine.ThresholdCache.{
  ThresholdCache, Fetch, Served, get_thresholds,
}

-- A record handed to the Kafka producer: topic, key and value.
pub record Sent (F : Type 0) : Type 0 where
  pub topic : String
  pub key : String
  pub alert : Alert F

-- What the process holds between two messages. `drawn` counts the alerts built so far.
pub record Engine (F R H : Type 0) : Type 0 where
  pub history : History F
  pub cache : ThresholdCache F
  pub tracker : Tracker R
  pub hot : H
  pub sent : List (Sent F)
  pub drawn : ℕ

-- What surrounds one message: the clock before and after the fetch, and the geo-service's answer.
pub record Surroundings (F : Type 0) : Type 0 where
  pub now : ℕ
  pub fetched_at : ℕ
  pub answer : Fetch F

-- `settings.sensor_silence_timeout_s`
abbrev pub sensor_silence_timeout_s : ℕ
sensor_silence_timeout_s = 180

-- What the emission of alerts changes.
pub record Outbox (F : Type 0) : Type 0 where
  pub sent : List (Sent F)
  pub metrics : List Metric

module _ {F : Type 0} (accepts : Alert F → Bool) where
  -- `_emit_alert`: an error of the producer is logged, and nothing else.
  unfoldable pub emit_alert : Alert F → Outbox F → Outbox F
  emit_alert a o =
      if accepts a
      then record {
        sent = o.sent ++ record { topic = kafka_topic a; key = a.area_id; alert = a } ∷ [];
        metrics = o.metrics ++ alerts_emitted a.kind a.severity ∷ [];
      }
      else o

  unfoldable pub emit_all : List (Alert F) → Outbox F → Outbox F
  unfolding emit_alert
  emit_all [] o = o
  emit_all (a ∷ as_) o = emit_all as_ (emit_alert a o)

-- `{p: _update_history(sensor_id, p, value) for p in params}`
unfoldable pub update_params :
    {F : Type 0} → String → List (String × F) → History F → History F × Dict String (List F)
update_params sensor [] h = (h, [])
update_params sensor ((p, v) ∷ items) h =
    let (h', before) = update_history sensor p v h in
    let (h'', rest) = update_params sensor items h' in (h'', (p, before) ∷ rest)

abbrev pub cache_metric : Bool → Metric
cache_metric true = cache_hits
cache_metric false = cache_misses

module _ {F R H : Type 0} ⦃f : Float F⦄ ⦃d : Redis R⦄ ⦃s : HotState H (TelemetryMessage F)⦄
    (draw : ℕ → Draw) (accepts : Alert F → Bool) where
  -- Steps 1 to 4 of `_process`, with the thresholds at hand. The tracker has the metrics so far.
  unfoldable pub process_with :
      TelemetryMessage F → List (AreaThreshold F) → Engine F R H → Engine F R H
  process_with event thresholds e =
      let items = as_param_dict event.measurements in
      let (history, existing) = update_params event.sensor_id items e.history in
      let threshold_alerts = evaluate_thresholds draw event e.drawn thresholds existing in
      let n = e.drawn + length threshold_alerts in
      let (tracker, redundancy_alerts) =
        on_sensor_reading F draw n event.sensor_id event.area_id (map (λ i. i.0) items) event.status
          event.ts e.tracker in
      let out =
        emit_all accepts (threshold_alerts ++ redundancy_alerts)
          (record { sent = e.sent; metrics = tracker.metrics }) in
      record {
        history = history;
        cache = e.cache;
        tracker = record { redis = tracker.redis; metrics = out.metrics };
        hot = s.set_latest event.sensor_id event (sensor_silence_timeout_s * 2) e.hot;
        sent = out.sent;
        drawn = n + length redundancy_alerts;
      }

  -- The steps after `get_thresholds`; the flag says that an exception left `_process`.
  abbrev pub process_served :
      TelemetryMessage F → ThresholdCache F × Served F → Engine F R H → Engine F R H × Bool
  process_served event (cache, served) e =
      let e' : Engine F R H = record e {
        cache = cache;
        tracker = record e.tracker {
          metrics = e.tracker.metrics ++ events_evaluated ∷ cache_metric served.hit ∷ [];
        };
      } in
      elim served.thresholds [ none ↦ (e', true) | some ts ↦ (process_with event ts e', false) ]

  abbrev pub process_event :
      Surroundings F → Option (TelemetryMessage F) → Engine F R H → Engine F R H × Bool
  process_event w none e = (e, false)
  process_event w (some event) e =
      process_served event (get_thresholds event.area_id w.now w.fetched_at w.answer e.cache) e

  unfoldable pub process : Surroundings F → Payload F → Engine F R H → Engine F R H × Bool
  unfolding process_with get_thresholds
  process w raw e = process_event w (validate_message raw) e
