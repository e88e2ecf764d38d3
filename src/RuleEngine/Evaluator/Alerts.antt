-- ===== src/RuleEngine/Evaluator/Alerts.antt =====
-- Which alerts `evaluate_thresholds` builds, against the description of Expected, which is without the
-- index, the ladder of tests, the loop and the counter of draws.
use flood_monitoring_and_man.Common.{
  ℕ, zero, suc, String, List, [], ◌∷◌, Option, none, some, ◌≡◌, refl, string_eq, arith, map, length,
  sym,
}
use flood_monitoring_and_man.Common.Dict.{Dict, lookup, insert, lookup-insert}
use flood_monitoring_and_man.Common.Float.{Float}
use flood_monitoring_and_man.Wire.Parameters.{as_param_dict}
use flood_monitoring_and_man.Wire.Validation.{TelemetryMessage}
use flood_monitoring_and_man.RuleEngine.Models.{AreaThreshold, Alert, Draw}
use flood_monitoring_and_man.RuleEngine.History.{or_empty}
use flood_monitoring_and_man.RuleEngine.Evaluator.Expected.{
  last_for, report_of, bounds_of, compute_trend-expected, report_for, expected,
}
use flood_monitoring_and_man.RuleEngine.Evaluator.{
  crossed, threshold_alert, index_from, evaluate_one, evaluate_loop, evaluate_thresholds,
}

abbrev or_else {ℓ} : {A : Type ℓ} → Option A → Option A → Option A
or_else (some a) o = some a
or_else none o = o

lookup-index_from :
    {F : Type 0} (p : String) (d : Dict String (AreaThreshold F)) (ts : List (AreaThreshold F))
    → lookup p (index_from d ts) ≡ or_else (last_for p ts) (lookup p d)
unfolding index_from last_for
lookup-index_from p d [] = refl
lookup-index_from p d (t ∷ ts) =
    ground (arith, lookup-index_from p (insert t.parameter t d) ts, lookup-insert t.parameter p t d)

abbrev pub alert_id_of : {F : Type 0} → Alert F → String
alert_id_of a = a.alert_id

-- The ids of `k` draws from the n-th on.
abbrev pub uuids : (ℕ → Draw) → ℕ → ℕ → List String
uuids draw n zero = []
uuids draw n (suc k) = (draw n).uuid ∷ uuids draw (suc n) k

abbrev map_option : {A B : Type 0} → (A → B) → Option A → Option B
map_option g none = none
map_option g (some a) = some (g a)

module _ {F : Type 0} ⦃f : Float F⦄ (draw : ℕ → Draw) (msg : TelemetryMessage F) where
  report-evaluate_one :
      (n : ℕ) (ts : List (AreaThreshold F)) (ex : Dict String (List F)) (p : String) (v : F)
      → map_option report_of (evaluate_one draw msg n (index_from [] ts) ex p v)
        ≡ report_for msg ex (last_for p ts) p v
  unfolding evaluate_one lookup crossed bounds_of threshold_alert
  report-evaluate_one n ts ex p v =
      ground (arith, lookup-index_from p [] ts, compute_trend-expected (or_empty (lookup p ex)) v)

  reports-evaluate_loop :
      (n : ℕ) (ts : List (AreaThreshold F)) (ex : Dict String (List F)) (items : List (String × F))
      → map report_of (evaluate_loop draw msg n (index_from [] ts) ex items)
        ≡ expected msg ex ts items
  unfolding evaluate_loop expected
  reports-evaluate_loop n ts ex [] = refl
  reports-evaluate_loop n ts ex ((p, v) ∷ items) = ground (
    arith,
    report-evaluate_one n ts ex p v,
    reports-evaluate_loop n ts ex items,
    reports-evaluate_loop (suc n) ts ex items,
  )

  expected-no_thresholds :
      (ex : Dict String (List F)) (items : List (String × F)) → expected msg ex [] items ≡ []
  unfolding expected last_for
  expected-no_thresholds ex [] = refl
  expected-no_thresholds ex ((p, v) ∷ items) = expected-no_thresholds ex items

  -- The alerts, without their ids and times, are exactly the reports that are expected, in the order of
  -- the measurements: none for a measurement without a threshold or within the four bounds of the last
  -- one in the list for its parameter; for any other, one with the bound and the severity of the first
  -- that it is beyond of the upper critical, the upper warning, the lower critical and the lower warning
  -- bound, and with the trend from the oldest of the last four earlier values, which is rising or falling
  -- by more than 1 %, or rising from 0, and else stable.
  pub reports-evaluate_thresholds :
      (n : ℕ) (ts : List (AreaThreshold F)) (ex : Dict String (List F))
      → map report_of (evaluate_thresholds draw msg n ts ex)
        ≡ expected msg ex ts (as_param_dict msg.measurements)
  unfolding evaluate_thresholds
  reports-evaluate_thresholds n [] ex = sym (expected-no_thresholds ex _)
  reports-evaluate_thresholds n (t ∷ ts) ex =
      reports-evaluate_loop n (t ∷ ts) ex (as_param_dict msg.measurements)

  alert_id-evaluate_one :
      (n : ℕ) (d : Dict String (AreaThreshold F)) (ex : Dict String (List F)) (p : String) (v : F)
      → map_option alert_id_of (evaluate_one draw msg n d ex p v)
        ≡ map_option (λ _. (draw n).uuid) (evaluate_one draw msg n d ex p v)
  unfolding evaluate_one
  alert_id-evaluate_one n d ex p v = ground arith

  alert_ids-evaluate_loop :
      (n : ℕ) (d : Dict String (AreaThreshold F)) (ex : Dict String (List F))
      (items : List (String × F))
      → map alert_id_of (evaluate_loop draw msg n d ex items)
        ≡ uuids draw n (length (evaluate_loop draw msg n d ex items))
  unfolding evaluate_loop
  alert_ids-evaluate_loop n d ex [] = refl
  alert_ids-evaluate_loop n d ex ((p, v) ∷ items) = ground (
    arith,
    alert_id-evaluate_one n d ex p v,
    alert_ids-evaluate_loop n d ex items,
    alert_ids-evaluate_loop (suc n) d ex items,
  )

  -- The alerts take their ids from successive draws, so no two share a draw.
  pub alert_ids-evaluate_thresholds :
      (n : ℕ) (ts : List (AreaThreshold F)) (ex : Dict String (List F))
      → map alert_id_of (evaluate_thresholds draw msg n ts ex)
        ≡ uuids draw n (length (evaluate_thresholds draw msg n ts ex))
  unfolding evaluate_thresholds
  alert_ids-evaluate_thresholds n [] ex = refl
  alert_ids-evaluate_thresholds n (t ∷ ts) ex =
      alert_ids-evaluate_loop n (index_from [] (t ∷ ts)) ex (as_param_dict msg.measurements)
