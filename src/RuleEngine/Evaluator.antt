-- ===== src/RuleEngine/Evaluator.antt =====
-- `evaluate_thresholds` of services/rule-engine/src/rule_engine/threshold_evaluator.py. `n` counts the
-- alerts built so far: the n-th alert takes its id and its `ts_emitted` from the n-th draw.
pub mod Expected
pub mod Severities
pub mod Alerts
use flood_monitoring_and_man.Common.{
  ℕ, suc, ◌+◌, String, List, [], ◌∷◌, Option, none, some, Bool, false, ◌==◌, string_eq,
  if◌then◌else◌,
}
use flood_monitoring_and_man.Common.Dict.{Dict, lookup, insert}
use flood_monitoring_and_man.Common.Float.{Float}
use flood_monitoring_and_man.Wire.Parameters.{as_param_dict}
use flood_monitoring_and_man.Wire.Validation.{TelemetryMessage}
use flood_monitoring_and_man.RuleEngine.Models.{
  AreaThreshold, Alert, Draw, Kind, Severity, low, medium, high, empty_context,
}
use flood_monitoring_and_man.RuleEngine.Trend.{compute_trend}
use flood_monitoring_and_man.RuleEngine.History.{or_empty}

module _ {F : Type 0} ⦃f : Float F⦄ where
  -- `bound is not None and value > bound`, and with `<`
  abbrev pub above : Option F → F → Bool
  above none value = false
  above (some bound) value = f.lt bound value

  abbrev pub below : Option F → F → Bool
  below none value = false
  below (some bound) value = f.lt value bound

  -- The ladder of tests: `severity` and `crossed_threshold`.
  unfoldable pub crossed : AreaThreshold F → F → Option Severity × Option F
  crossed thr value =
      if above thr.critical_hi value
      then (some high, thr.critical_hi)
      else if above thr.warning_hi value
      then (some medium, thr.warning_hi)
      else if below thr.critical_lo value
      then (some high, thr.critical_lo)
      else if below thr.warning_lo value
      then (some medium, thr.warning_lo)
      else (none, none)

-- `{t.parameter: t for t in thresholds}` from a dictionary that is already there.
unfoldable pub index_from :
    {F : Type 0}
    → Dict String (AreaThreshold F)
    → List (AreaThreshold F)
    → Dict String (AreaThreshold F)
index_from d [] = d
index_from d (t ∷ ts) = index_from (insert t.parameter t d) ts

module _ {F : Type 0} ⦃f : Float F⦄ (draw : ℕ → Draw) (msg : TelemetryMessage F) where
  unfoldable pub threshold_alert : ℕ → String → F → Severity → Option F → List F → Alert F
  threshold_alert n parameter value severity bound history = record {
    alert_id = (draw n).uuid;
    kind = Kind.threshold;
    severity = severity;
    area_id = msg.area_id;
    sensor_id = some msg.sensor_id;
    parameter = some parameter;
    value = some value;
    threshold_value = bound;
    ts_event = msg.ts;
    ts_emitted = (draw n).now;
    context = record empty_context { trend = some (compute_trend history value) };
  }

  -- One round of the loop; `none` is a `continue`.
  unfoldable pub evaluate_one :
      ℕ → Dict String (AreaThreshold F) → Dict String (List F) → String → F → Option (Alert F)
  unfolding threshold_alert crossed
  evaluate_one n by_param existing parameter value = elim (lookup parameter by_param) [
    | none ↦ none
    | some thr ↦
        let (severity, bound) = crossed thr value in
        elim severity [
          | none ↦ none
          | some s ↦
              some
                (threshold_alert n parameter value s bound (or_empty (lookup parameter existing)))
        ]
  ]

  unfoldable pub evaluate_loop :
      ℕ → Dict String (AreaThreshold F) → Dict String (List F) → List (String × F) → List (Alert F)
  evaluate_loop n by_param existing [] = []
  evaluate_loop n by_param existing ((parameter, value) ∷ items) =
      elim (evaluate_one n by_param existing parameter value) [
        | none ↦ evaluate_loop n by_param existing items
        | some alert ↦ alert ∷ evaluate_loop (suc n) by_param existing items
      ]

  -- `if not thresholds: return []`, the index, and the loop.
  unfoldable pub evaluate_thresholds :
      ℕ → List (AreaThreshold F) → Dict String (List F) → List (Alert F)
  unfolding evaluate_loop index_from
  evaluate_thresholds n [] existing = []
  evaluate_thresholds n (t ∷ ts) existing =
      evaluate_loop n (index_from [] (t ∷ ts)) existing (as_param_dict msg.measurements)
