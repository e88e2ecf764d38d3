-- ===== src/Alerts/Wire/Emitted.antt =====
-- Which alerts of the rule engine the alert service accepts.
use flood_monitoring_and_man.Common.{
  ℕ, suc, ◌+◌, String, List, [], ◌∷◌, ◌++◌, Option, none, some, Bool, true, false, ◌≡◌, refl, arith,
  string_eq, if◌then◌else◌, All, All-append, All-weaken, map, length, Option-cases, Bool-cases, inl,
  inr, ap, ◌∙◌,
}
use flood_monitoring_and_man.Common.Dict.{Dict}
use flood_monitoring_and_man.Common.Float.{Float}
use flood_monitoring_and_man.Common.Int.{ℤ, is_negative, is_nat}
use flood_monitoring_and_man.Common.Redis.{Redis, fault_count}
use flood_monitoring_and_man.Wire.Parameters.{Measurements, model_dump, present, as_param_dict}
use flood_monitoring_and_man.Wire.Validation.{TelemetryMessage}
use flood_monitoring_and_man.RuleEngine.Models.{Alert, AreaThreshold, Draw}
use flood_monitoring_and_man.RuleEngine.Evaluator.{
  threshold_alert, index_from, evaluate_one, evaluate_loop, evaluate_thresholds,
}
use flood_monitoring_and_man.RuleEngine.Redundancy.{
  Tracker, decrement, fault_alert, fault_alerts, fault_metrics, fault_loop, handle_fault,
  on_sensor_reading,
}
use flood_monitoring_and_man.RuleEngine.Consumer.{Engine}
use flood_monitoring_and_man.RuleEngine.Consumer.Emission.{threshold_alerts, redundancy_alerts}
use flood_monitoring_and_man.Alerts.Wire.{is_parameter, is_count, dump_alert, validate_alert}
use flood_monitoring_and_man.Alerts.Wire.RoundTrip.{is_sendable, validate_alert-dump}

-- The name of a measurement.
abbrev IsName : String → Type 0
IsName p = is_parameter (some p) ≡ true

present-IsName :
    {F : Type 0} (items : List (String × Option F))
    → All (λ i. IsName i.0) items
    → All (λ i. IsName i.0) (present items)
unfolding present
present-IsName [] h = tt
present-IsName ((k, none) ∷ items) h = present-IsName items h.1
present-IsName ((k, some v) ∷ items) h = (h.0, present-IsName items h.1)

as_param_dict-IsName : {F : Type 0} (m : Measurements F) → All (λ i. IsName i.0) (as_param_dict m)
unfolding as_param_dict model_dump is_parameter
as_param_dict-IsName m =
    present-IsName (model_dump m) (refl, (refl, (refl, (refl, (refl, (refl, tt))))))

names-IsName :
    {F : Type 0} (items : List (String × F))
    → All (λ i. IsName i.0) items
    → All IsName (map (λ i. i.0) items)
names-IsName [] h = tt
names-IsName (i ∷ items) h = (h.0, names-IsName items h.1)

module _ {F R H : Type 0} ⦃f : Float F⦄ ⦃d : Redis R⦄ (draw : ℕ → Draw) where
  -- What the rule engine builds for one message.
  abbrev pub alerts_for :
      TelemetryMessage F → List (AreaThreshold F) → Engine F R H → List (Alert F)
  alerts_for msg thresholds e =
      threshold_alerts draw msg thresholds e ++ redundancy_alerts draw msg thresholds e

module _ (is_datetime : String → Bool) (draw : ℕ → Draw)
    (drawn : (n : ℕ) → is_datetime (draw n).now ≡ true) where
  -- An alert is accepted if and only if a time is.
  abbrev IsSentLike : {F : Type 0} → String → Alert F → Type 0
  IsSentLike ts a = is_sendable is_datetime a ≡ is_datetime ts

  module _ {F : Type 0} ⦃f : Float F⦄ (msg : TelemetryMessage F) where
    evaluate_one-IsSentLike :
        (n : ℕ) (d : Dict String (AreaThreshold F)) (ex : Dict String (List F)) (p : String) (v : F)
        (a : Alert F)
        → IsName p
        → evaluate_one draw msg n d ex p v ≡ some a
        → IsSentLike msg.ts a
    unfolding evaluate_one threshold_alert is_count
    evaluate_one-IsSentLike n d ex p v a named built = ground (arith, named, built, drawn n)

    evaluate_loop-IsSentLike :
        (n : ℕ) (d : Dict String (AreaThreshold F)) (ex : Dict String (List F))
        (items : List (String × F))
        → All (λ i. IsName i.0) items
        → All (IsSentLike msg.ts) (evaluate_loop draw msg n d ex items)
    unfolding evaluate_loop
    evaluate_loop-IsSentLike n d ex [] h = tt
    evaluate_loop-IsSentLike n d ex ((p, v) ∷ items) h =
        elim (Option-cases (evaluate_one draw msg n d ex p v)) [
          | inl quiet ↦ rw (All, quiet) (evaluate_loop-IsSentLike n d ex items h.1)
          | inr (a, built) ↦
              rw (All, built)
                (
                  evaluate_one-IsSentLike n d ex p v a h.0 built,
                  evaluate_loop-IsSentLike (suc n) d ex items h.1,
                )
        ]

    evaluate_thresholds-IsSentLike :
        (n : ℕ) (ts : List (AreaThreshold F)) (ex : Dict String (List F))
        → All (IsSentLike msg.ts) (evaluate_thresholds draw msg n ts ex)
    unfolding evaluate_thresholds
    evaluate_thresholds-IsSentLike n [] ex = tt
    evaluate_thresholds-IsSentLike n (t ∷ ts) ex =
        evaluate_loop-IsSentLike n (index_from [] (t ∷ ts)) ex (as_param_dict msg.measurements)
          (as_param_dict-IsName msg.measurements)

  module _ (F : Type 0) (sensor area ts : String) where
    fault_alerts-IsSentLike :
        (n : ℕ) (p : String) (count : ℤ)
        → IsName p
        → is_negative count ≡ false
        → All (IsSentLike ts) (fault_alerts F draw sensor area ts n p count)
    unfolding fault_alerts fault_alert is_count
    fault_alerts-IsSentLike n p count named natural = elim (Bool-cases (is_nat 0 count)) [
      | inl lost ↦
          rw lost (ground (arith, named, drawn n), (ground (arith, named, drawn (suc n)), tt))
      | inr left ↦ rw left (ground (arith, named, natural, drawn n), tt)
    ]

    module _ {R : Type 0} ⦃d : Redis R⦄ where
      decrement-natural : (p : String) (r : R) → is_negative (decrement area p r).1 ≡ false
      unfolding decrement
      decrement-natural p r = ground arith

      fault_loop-IsSentLike :
          (n : ℕ) (ps : List String) (t : Tracker R)
          → All IsName ps
          → All (IsSentLike ts) (fault_loop F draw sensor area ts n ps t).1
      unfolding fault_loop
      fault_loop-IsSentLike n [] t h = tt
      fault_loop-IsSentLike n (p ∷ ps) t h =
          let (r, c) = decrement area p t.redis in
          let alerts = fault_alerts F draw sensor area ts n p c in
          let t' : Tracker R = record { redis = r; metrics = t.metrics ++ fault_metrics c } in
          All-append (IsSentLike ts) alerts _
            (fault_alerts-IsSentLike n p c h.0 (decrement-natural p t.redis))
            (fault_loop-IsSentLike (n + length alerts) ps t' h.1)

      on_sensor_reading-IsSentLike :
          (n : ℕ) (ps : List String) (up : Bool) (t : Tracker R)
          → All IsName ps
          → All (IsSentLike ts) (on_sensor_reading F draw n sensor area ps up ts t).1
      unfolding on_sensor_reading handle_fault
      on_sensor_reading-IsSentLike n ps true t h = tt
      on_sensor_reading-IsSentLike n ps false t h =
          let (r, count) = d.incr (fault_count sensor) t.redis in
          elim (Bool-cases (is_nat 1 count)) [
            | inl first ↦ rw first (fault_loop-IsSentLike n ps _ h)
            | inr repeated ↦ rw repeated tt
          ]

  module _ {F R H : Type 0} ⦃f : Float F⦄ ⦃d : Redis R⦄ where
    alerts_for-IsSentLike :
        (msg : TelemetryMessage F) (thresholds : List (AreaThreshold F)) (e : Engine F R H)
        → All (IsSentLike msg.ts) (alerts_for draw msg thresholds e)
    alerts_for-IsSentLike msg thresholds e =
        All-append (IsSentLike msg.ts) (threshold_alerts draw msg thresholds e) _
          (evaluate_thresholds-IsSentLike msg e.drawn thresholds _)
          (on_sensor_reading-IsSentLike F msg.sensor_id msg.area_id msg.ts _ _ msg.status e.tracker
            (names-IsName (as_param_dict msg.measurements) (as_param_dict-IsName msg.measurements)))

    -- Of the alerts that the rule engine builds for a message, by a threshold or by a fault, the alert
    -- service reads each as it was built if the message's ts is a time, and refuses each if it is not,
    -- where the clock of the rule engine gives texts that are times.
    pub validate_alert-alerts_for :
        (msg : TelemetryMessage F) (thresholds : List (AreaThreshold F)) (e : Engine F R H)
        → All
            (λ a.
              validate_alert is_datetime (dump_alert a)
              ≡ (if is_datetime msg.ts then some a else none))
            (alerts_for draw msg thresholds e)
    validate_alert-alerts_for msg thresholds e =
        All-weaken (IsSentLike msg.ts) _ (alerts_for draw msg thresholds e)
          (λ a like. validate_alert-dump is_datetime a ∙ ap (λ b. if b then some a else none) like)
          (alerts_for-IsSentLike msg thresholds e)
