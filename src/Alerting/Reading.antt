-- ===== src/Alerting/Reading.antt =====
-- A critical reading among the alerts that the rule engine (services/rule-engine) sends, and an alert of
-- high severity among those that the dashboard's backend (services/dashboard-bff) selects.
use flood_monitoring_and_man.Common.{
  ℕ, zero, suc, ◌≤◌, String, List, [], ◌∷◌, ◌++◌, none, some, Bool, true, ◌&&◌, ◌≡◌, refl, arith,
  string_eq, map, length, take, keep_if, any, any-append_left, ap, sym, ◌∙◌,
}
use flood_monitoring_and_man.Common.Dict.{Dict, lookup}
use flood_monitoring_and_man.Common.Float.{Float}
use flood_monitoring_and_man.Common.Redis.{Redis}
use flood_monitoring_and_man.Wire.Parameters.{as_param_dict}
use flood_monitoring_and_man.Wire.Validation.{TelemetryMessage}
use flood_monitoring_and_man.RuleEngine.Models.{Alert, AreaThreshold, Draw, Kind, high}
use flood_monitoring_and_man.RuleEngine.Evaluator.Expected.{
  upper, beyond, expected_trend, bounds_of,
}
use flood_monitoring_and_man.RuleEngine.History.{or_empty}
use flood_monitoring_and_man.RuleEngine.Evaluator.Alerts.{reports-evaluate_thresholds}
use flood_monitoring_and_man.RuleEngine.Evaluator.Expected.{last_for, Report, report_of, expected}
use flood_monitoring_and_man.RuleEngine.Consumer.{Sent, Engine, update_params}
use flood_monitoring_and_man.RuleEngine.Consumer.Emission.{threshold_alerts, redundancy_alerts}
use flood_monitoring_and_man.Alerts.Table.{Table, severity_eq}
use flood_monitoring_and_man.Alerts.Consumer.{Delivery}
use flood_monitoring_and_man.Alerts.Wire.Emitted.{alerts_for}
use flood_monitoring_and_man.Alerts.Wire.Stored.{sent_alerts}
use flood_monitoring_and_man.Alerts.Wire.Appended.{rows_of}
use flood_monitoring_and_man.Bff.Scope.{elem, UserContext}
use flood_monitoring_and_man.Bff.Views.{visible}

pub any-map :
    {A B : Type 0} (g : A → B) (q : B → Bool) (xs : List A)
    → any q (map g xs) ≡ any (λ a. q (g a)) xs
any-map g q [] = refl
any-map g q (x ∷ xs) = ground (arith, any-map g q xs)

keep_if-all : {A : Type 0} (p : A → Bool) (xs : List A) → ((x : A) → p x ≡ true) → keep_if p xs ≡ xs
keep_if-all p [] all = refl
keep_if-all p (x ∷ xs) all = ground (arith, all x, keep_if-all p xs all)

pub take-all : {A : Type 0} (n : ℕ) (xs : List A) → length xs ≤ n → take n xs ≡ xs
take-all zero [] short = refl
take-all zero (x ∷ xs) short = absurd (omega (arith, short))
take-all (suc n) [] short = refl
take-all (suc n) (x ∷ xs) short = ap (λ l. x ∷ l) (take-all n xs (omega (arith, short)))

any-keep_if :
    {A : Type 0} (p q : A → Bool) (xs : List A) → any q (keep_if p xs) ≡ any (λ x. p x && q x) xs
any-keep_if p q [] = refl
any-keep_if p q (x ∷ xs) = ground (arith, any-keep_if p q xs)

any-same : {A : Type 0} (p q : A → Bool) (xs : List A) → ((x : A) → p x ≡ q x) → any p xs ≡ any q xs
any-same p q [] same = refl
any-same p q (x ∷ xs) same = ground (arith, same x, any-same p q xs same)

module _ {F : Type 0} where
  pub any-rows_of :
      (answers : Sent F → Delivery F) (q : Report F → Bool) (as_ : List (Alert F))
      → any (λ r. q (report_of r.alert)) (rows_of answers as_) ≡ any (λ a. q (report_of a)) as_
  any-rows_of answers q [] = refl
  any-rows_of answers q (a ∷ as_) = ground (arith, any-rows_of answers q as_)

module _ {F : Type 0} ⦃f : Float F⦄ (msg : TelemetryMessage F) where
  -- What the rule engine says of a value above the upper critical bound.
  abbrev pub critical_report : Dict String (List F) → AreaThreshold F → String → F → Report F
  critical_report existing thr p v = record {
    kind = Kind.threshold;
    area_id = msg.area_id;
    sensor_id = some msg.sensor_id;
    parameter = some p;
    value = some v;
    severity = high;
    bound = thr.critical_hi;
    trend = some (expected_trend (or_empty (lookup p existing)) v);
    ts_event = msg.ts;
  }

  expected-critical :
      (existing : Dict String (List F)) (ts : List (AreaThreshold F)) (thr : AreaThreshold F)
      (p : String) (v : F) (xs ys : List (String × F)) (q : Report F → Bool)
      → last_for p ts ≡ some thr
      → beyond upper thr.critical_hi v ≡ true
      → q (critical_report existing thr p v) ≡ true
      → any q (expected msg existing ts (xs ++ (p, v) ∷ ys)) ≡ true
  unfolding expected bounds_of
  expected-critical existing ts thr p v [] ys q bound over shown =
      ground (arith, bound, over, shown)
  expected-critical existing ts thr p v ((k, u) ∷ xs) ys q bound over shown =
      ground (arith, expected-critical existing ts thr p v xs ys q bound over shown)

-- The earlier readings of the sensor, by parameter.
abbrev pub readings_before :
    {F R H : Type 0} → TelemetryMessage F → Engine F R H → Dict String (List F)
readings_before msg e = (update_params msg.sensor_id (as_param_dict msg.measurements) e.history).1

module _ {F R H : Type 0} ⦃f : Float F⦄ ⦃d : Redis R⦄ (draw : ℕ → Draw) (accepts : Alert F → Bool)
    (takes_all : (a : Alert F) → accepts a ≡ true) (msg : TelemetryMessage F)
    (thresholds : List (AreaThreshold F)) (e : Engine F R H) where
  pub sent_alerts-critical :
      (thr : AreaThreshold F) (p : String) (v : F) (xs ys : List (String × F)) (q : Report F → Bool)
      → as_param_dict msg.measurements ≡ xs ++ (p, v) ∷ ys
      → last_for p thresholds ≡ some thr
      → beyond upper thr.critical_hi v ≡ true
      → q (critical_report msg (readings_before msg e) thr p v) ≡ true
      → any (λ a. q (report_of a)) (sent_alerts draw accepts msg thresholds e) ≡ true
  sent_alerts-critical thr p v xs ys q measured bound over shown =
      let built : any q
            (expected msg (readings_before msg e) thresholds (as_param_dict msg.measurements))
          ≡ true =
        rw measured (
          expected-critical msg (readings_before msg e) thresholds thr p v xs ys q bound over
            shown) in
      ap (any (λ a. q (report_of a)))
        (keep_if-all accepts (alerts_for draw msg thresholds e) takes_all)
      ∙ any-append_left (λ a. q (report_of a)) (threshold_alerts draw msg thresholds e)
          (redundancy_alerts draw msg thresholds e)
          (sym (any-map report_of q (threshold_alerts draw msg thresholds e))
            ∙ ap (any q)
                (reports-evaluate_thresholds draw msg e.drawn thresholds (readings_before msg e))
            ∙ built)

module _ {F : Type 0} where
  -- A user who has the area of the report and asks for alerts of high severity is shown it.
  abbrev pub in_view : UserContext → (Report F → Bool) → Report F → Bool
  in_view user q r = (elem r.area_id user.area_ids && severity_eq r.severity high) && q r

  pub any-in_view :
      (user : UserContext) (q : Report F → Bool) (t : Table F)
      → any (λ r. q (report_of r.alert)) (keep_if (visible user.area_ids (some high) none) t)
        ≡ any (λ r. in_view user q (report_of r.alert)) t
  any-in_view user q t =
      any-keep_if (visible user.area_ids (some high) none) (λ r. q (report_of r.alert)) t
      ∙ any-same _ _ t (λ r. ground arith)
