-- ===== src/RuleEngine/Redundancy.antt =====
-- `RedundancyTracker` of services/rule-engine/src/rule_engine/redundancy_tracker.py. `n` counts the
-- alerts built so far, as in the evaluator. The increments of the Prometheus counters are kept as a
-- list; log lines are left out.
pub mod Counts
pub mod Faults
pub mod Notices
pub mod Population
pub mod Recovery
use flood_monitoring_and_man.Common.{
  ℕ, suc, ◌+◌, String, List, [], ◌∷◌, ◌++◌, Option, none, some, Bool, true, false, length,
  if◌then◌else◌,
}
use flood_monitoring_and_man.Common.Int.{ℤ, pos, is_negative, is_nat}
use flood_monitoring_and_man.Common.Redis.{
  Redis, CounterKey, operational_count, fault_count, or_zero,
}
use flood_monitoring_and_man.RuleEngine.Models.{
  Alert, AlertContext, Draw, Kind, malfunction, priority, Severity, low, high, empty_context,
}

-- rule_engine/metrics.py: `ALERTS_EMITTED.labels(kind, severity).inc()` and the others.
pub data Metric : Type 0 where
  alerts_emitted : Kind → Severity → Metric
  redundancy_escalations events_evaluated cache_hits cache_misses : Metric

pub record Tracker (R : Type 0) : Type 0 where
  pub redis : R
  pub metrics : List Metric

-- `_FAULT_COUNT_TTL_S`
abbrev pub fault_count_ttl_s : ℕ
fault_count_ttl_s = 3600

module _ {R : Type 0} ⦃d : Redis R⦄ where
  -- `SET key count NX`
  unfoldable pub init_area_sensor_count : String → String → ℕ → R → R
  init_area_sensor_count area param count r = elim (d.get r (operational_count area param)) [
    | none ↦ d.set (operational_count area param) (pos count) r
    | some v ↦ r
  ]

  unfoldable pub get_operational_count : String → String → R → ℤ
  get_operational_count area param r = or_zero (d.get r (operational_count area param))

  unfoldable pub decrement : String → String → R → R × ℤ
  decrement area param r =
      let key = operational_count area param in
      let (r', new_value) = d.decr key r in
      if is_negative new_value then (d.set key (pos 0) r', pos 0) else (r', new_value)

  unfoldable pub increment : String → String → R → R × ℤ
  increment area param r = d.incr (operational_count area param) r

module _ (F : Type 0) (draw : ℕ → Draw) (sensor area ts : String) where
  unfoldable pub fault_alert : ℕ → Kind → Severity → String → AlertContext → Alert F
  fault_alert n kind severity param context = record {
    alert_id = (draw n).uuid;
    kind = kind;
    severity = severity;
    area_id = area;
    sensor_id = some sensor;
    parameter = some param;
    value = none;
    threshold_value = none;
    ts_event = ts;
    ts_emitted = (draw n).now;
    context = context;
  }

  -- The alerts for one parameter whose count is now `new_count`.
  unfoldable pub fault_alerts : ℕ → String → ℤ → List (Alert F)
  unfolding fault_alert
  fault_alerts n param new_count =
      if is_nat 0 new_count
      then fault_alert n malfunction high param
          (record empty_context { redundancy_remaining = some (pos 0) })
        ∷ fault_alert (suc n) priority high param (record empty_context {
          redundancy_remaining = some (pos 0);
          originating_alert_id = some (draw n).uuid;
        })
        ∷ []
      else fault_alert n malfunction low param
          (record empty_context { redundancy_remaining = some new_count })
        ∷ []

unfoldable pub fault_metrics : ℤ → List Metric
fault_metrics new_count =
    if is_nat 0 new_count
    then redundancy_escalations
      ∷ alerts_emitted malfunction high
      ∷ alerts_emitted priority high
      ∷ []
    else alerts_emitted malfunction low ∷ []

module _ {R : Type 0} ⦃d : Redis R⦄ where
  module _ (F : Type 0) (draw : ℕ → Draw) (sensor area ts : String) where
    -- The loop `for parameter in parameters` of `_handle_fault`.
    unfoldable pub fault_loop : ℕ → List String → Tracker R → Tracker R × List (Alert F)
    fault_loop n [] t = (t, [])
    fault_loop n (param ∷ params) t =
        let (r, new_count) = decrement area param t.redis in
        let alerts = fault_alerts F draw sensor area ts n param new_count in
        let t' : Tracker R = record { redis = r; metrics = t.metrics ++ fault_metrics new_count } in
        let (t'', rest) = fault_loop (n + length alerts) params t' in (t'', alerts ++ rest)

    -- `_handle_fault`: the counts change on the first fault in a run only.
    unfoldable pub handle_fault : ℕ → List String → Tracker R → Tracker R × List (Alert F)
    handle_fault n params t =
        let (r, count) = d.incr (fault_count sensor) t.redis in
        let t' : Tracker R = record t {
          redis = d.expire (fault_count sensor) fault_count_ttl_s r;
        } in
        if is_nat 1 count then fault_loop n params t' else (t', [])

  -- The loop of `_handle_recovery`.
  unfoldable pub recovery_loop : String → List String → R → R
  recovery_loop area [] r = r
  recovery_loop area (param ∷ params) r = recovery_loop area params (increment area param r).0

  -- `if raw is None or int(raw) == 0: return`, then the deletion and the loop.
  abbrev pub recover : String → String → List String → R → Option ℤ → R
  recover sensor area params r none = r
  recover sensor area params r (some raw) =
      if is_nat 0 raw then r else recovery_loop area params (d.delete (fault_count sensor) r)

  unfoldable pub handle_recovery : String → String → List String → Tracker R → Tracker R
  handle_recovery sensor area params t = record t {
    redis = recover sensor area params t.redis (d.get t.redis (fault_count sensor));
  }

  -- `status` is true for 1.
  unfoldable pub on_sensor_reading :
      (F : Type 0) (draw : ℕ → Draw)
      → ℕ
      → String
      → String
      → List String
      → Bool
      → String
      → Tracker R
      → Tracker R × List (Alert F)
  on_sensor_reading F draw n sensor area params true ts t =
      (handle_recovery sensor area params t, [])
  on_sensor_reading F draw n sensor area params false ts t =
      handle_fault F draw sensor area ts n params t
