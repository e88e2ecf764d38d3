-- ===== src/Alerts/Wire/Ids.antt =====
-- The ids of the alerts that the rule engine builds for one message: successive draws.
use flood_monitoring_and_man.Common.{
  ℕ, zero, suc, ◌+◌, ◌≤◌, String, List, [], ◌∷◌, ◌++◌, Bool, true, false, ◌≡◌, refl, arith,
  string_eq, map, map-append, length, length-append, keep_if, Bool-cases, inl, inr, ap,
}
use flood_monitoring_and_man.Common.Float.{Float}
use flood_monitoring_and_man.Common.Int.{ℤ, is_nat}
use flood_monitoring_and_man.Common.Redis.{Redis, fault_count}
use flood_monitoring_and_man.Wire.Validation.{TelemetryMessage}
use flood_monitoring_and_man.RuleEngine.Models.{Alert, AreaThreshold, Draw}
use flood_monitoring_and_man.RuleEngine.Evaluator.Alerts.{
  alert_id_of, uuids, alert_ids-evaluate_thresholds,
}
use flood_monitoring_and_man.RuleEngine.Redundancy.{
  Tracker, decrement, fault_alert, fault_alerts, fault_metrics, fault_loop, handle_fault,
  on_sensor_reading,
}
use flood_monitoring_and_man.RuleEngine.Consumer.{Engine}
use flood_monitoring_and_man.RuleEngine.Consumer.Emission.{threshold_alerts}
use flood_monitoring_and_man.Alerts.Wire.Emitted.{alerts_for}

module _ (draw : ℕ → Draw) where
  uuids-append : (j k n : ℕ) → uuids draw n (j + k) ≡ uuids draw n j ++ uuids draw (n + j) k
  uuids-append zero k n =
      let k_is : 0 + k ≡ k = omega arith in
      let n_is : n + 0 ≡ n = omega arith in rw (k_is, n_is) refl
  uuids-append (suc j) k n =
      let whole : suc j + k ≡ suc (j + k) = omega arith in
      let from : n + suc j ≡ suc n + j = omega arith in
      rw (whole, from) (ap (λ l. (draw n).uuid ∷ l) (uuids-append j k (suc n)))

  -- The alerts take their ids from the draws from the n-th on, one each.
  abbrev TakesIds : {F : Type 0} → ℕ → List (Alert F) → Type 0
  TakesIds n as_ = map alert_id_of as_ ≡ uuids draw n (length as_)

  TakesIds-append :
      {F : Type 0} (n : ℕ) (as_ bs : List (Alert F))
      → TakesIds n as_
      → TakesIds (n + length as_) bs
      → TakesIds n (as_ ++ bs)
  TakesIds-append n as_ bs h k = ground (
    arith,
    map-append alert_id_of as_ bs,
    length-append as_ bs,
    uuids-append (length as_) (length bs) n,
    h,
    k,
  )

  module _ (F : Type 0) (sensor area ts : String) where
    fault_alerts-TakesIds :
        (n : ℕ) (p : String) (c : ℤ) → TakesIds n (fault_alerts F draw sensor area ts n p c)
    unfolding fault_alerts fault_alert
    fault_alerts-TakesIds n p c = ground arith

    module _ {R : Type 0} ⦃d : Redis R⦄ where
      fault_loop-TakesIds :
          (n : ℕ) (ps : List String) (t : Tracker R)
          → TakesIds n (fault_loop F draw sensor area ts n ps t).1
      unfolding fault_loop
      fault_loop-TakesIds n [] t = refl
      fault_loop-TakesIds n (p ∷ ps) t =
          let (r, c) = decrement area p t.redis in
          let alerts = fault_alerts F draw sensor area ts n p c in
          let t' : Tracker R = record { redis = r; metrics = t.metrics ++ fault_metrics c } in
          TakesIds-append n alerts _ (fault_alerts-TakesIds n p c)
            (fault_loop-TakesIds (n + length alerts) ps t')

      on_sensor_reading-TakesIds :
          (n : ℕ) (ps : List String) (up : Bool) (t : Tracker R)
          → TakesIds n (on_sensor_reading F draw n sensor area ps up ts t).1
      unfolding on_sensor_reading handle_fault
      on_sensor_reading-TakesIds n ps true t = refl
      on_sensor_reading-TakesIds n ps false t =
          let (r, count) = d.incr (fault_count sensor) t.redis in
          elim (Bool-cases (is_nat 1 count)) [
            | inl first ↦ rw first (fault_loop-TakesIds n ps _)
            | inr repeated ↦ rw repeated refl
          ]

  module _ {F R H : Type 0} ⦃f : Float F⦄ ⦃d : Redis R⦄ where
    alerts_for-TakesIds :
        (msg : TelemetryMessage F) (thresholds : List (AreaThreshold F)) (e : Engine F R H)
        → TakesIds e.drawn (alerts_for draw msg thresholds e)
    alerts_for-TakesIds msg thresholds e =
        TakesIds-append e.drawn (threshold_alerts draw msg thresholds e) _
          (alert_ids-evaluate_thresholds draw msg e.drawn thresholds _)
          (on_sensor_reading-TakesIds F msg.sensor_id msg.area_id msg.ts _ _ msg.status e.tracker)

  -- The ids are draws from the n-th on, in ascending order.
  abbrev pub AreDrawn : {F : Type 0} → ℕ → List (Alert F) → Type 0
  AreDrawn n [] = Unit
  AreDrawn n (a ∷ as_) = (k : ℕ) × ((n ≤ k) × ((a.alert_id ≡ (draw k).uuid) × AreDrawn (suc k) as_))

  AreDrawn-weaken :
      {F : Type 0} (n m : ℕ) (as_ : List (Alert F)) → n ≤ m → AreDrawn m as_ → AreDrawn n as_
  AreDrawn-weaken n m [] le h = tt
  AreDrawn-weaken n m (a ∷ as_) le (k, (above, (is, rest))) =
      (k, (omega (arith, le, above), (is, rest)))

  AreDrawn-uuids : {F : Type 0} (n : ℕ) (as_ : List (Alert F)) → TakesIds n as_ → AreDrawn n as_
  AreDrawn-uuids n [] h = tt
  AreDrawn-uuids n (a ∷ as_) h =
      (n, (omega arith, (ground (arith, h), AreDrawn-uuids (suc n) as_ (ground (arith, h)))))

  AreDrawn-keep_if :
      {F : Type 0} (p : Alert F → Bool) (n : ℕ) (as_ : List (Alert F))
      → AreDrawn n as_
      → AreDrawn n (keep_if p as_)
  AreDrawn-keep_if p n [] h = tt
  AreDrawn-keep_if p n (a ∷ as_) (k, (above, (is, rest))) =
      let rest' = AreDrawn-keep_if p (suc k) as_ rest in
      elim (Bool-cases (p a)) [
        | inl kept ↦ rw (AreDrawn, kept) (k, (above, (is, rest')))
        | inr left ↦
            rw (AreDrawn, left)
              (AreDrawn-weaken n (suc k) (keep_if p as_) (omega (arith, above)) rest')
      ]

  -- The alerts that the producer takes for a message have distinct ids of their own.
  pub alerts_for-AreDrawn :
      {F R H : Type 0} ⦃f : Float F⦄ ⦃d : Redis R⦄ (accepts : Alert F → Bool)
      (msg : TelemetryMessage F) (thresholds : List (AreaThreshold F)) (e : Engine F R H)
      → AreDrawn e.drawn (keep_if accepts (alerts_for draw msg thresholds e))
  alerts_for-AreDrawn accepts msg thresholds e =
      AreDrawn-keep_if accepts e.drawn (alerts_for draw msg thresholds e)
        (AreDrawn-uuids e.drawn _ (alerts_for-TakesIds msg thresholds e))
