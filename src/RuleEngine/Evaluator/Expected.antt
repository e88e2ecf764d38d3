-- ===== src/RuleEngine/Evaluator/Expected.antt =====
-- Which alerts a message should raise, told without the code of `evaluate_thresholds`: the last threshold
-- for each parameter, its four bounds in the order of their tests, and the trend by the oldest of the
-- last four earlier values.
use flood_monitoring_and_man.Common.{
  String, List, [], ◌∷◌, ◌++◌, Option, none, some, Bool, false, not, ◌&&◌, ◌≡◌, refl, ap, sym, ◌∙◌,
  ◌==◌, string_eq, arith, if◌then◌else◌, last_n, length-last_n, length-append,
}
use flood_monitoring_and_man.Common.Windows.{last_n-append, last_n-short}
use flood_monitoring_and_man.Common.Dict.{Dict, lookup}
use flood_monitoring_and_man.Common.Float.{Float}
use flood_monitoring_and_man.Wire.Validation.{TelemetryMessage}
use flood_monitoring_and_man.RuleEngine.Models.{
  AreaThreshold, Alert, Severity, medium, high, Direction, rising, falling, stable, Kind,
}
use flood_monitoring_and_man.RuleEngine.Trend.{trend_of, newest_of, compute_trend}
use flood_monitoring_and_man.RuleEngine.History.{or_empty}

-- The last threshold of the list that is for a parameter.
unfoldable pub last_for : {F : Type 0} → String → List (AreaThreshold F) → Option (AreaThreshold F)
last_for p [] = none
last_for p (t ∷ ts) = elim (last_for p ts) [
  | some u ↦ some u
  | none ↦ if t.parameter == p then some t else none
]

-- What an alert says, without its id and times.
pub record Report (F : Type 0) : Type 0 where
  pub kind : Kind
  pub area_id : String
  pub sensor_id : Option String
  pub parameter : Option String
  pub value : Option F
  pub severity : Severity
  pub bound : Option F
  pub trend : Option Direction
  pub ts_event : String

abbrev pub report_of : {F : Type 0} → Alert F → Report F
report_of a = record {
  kind = a.kind;
  area_id = a.area_id;
  sensor_id = a.sensor_id;
  parameter = a.parameter;
  value = a.value;
  severity = a.severity;
  bound = a.threshold_value;
  trend = a.context.trend;
  ts_event = a.ts_event;
}

pub data Side : Type 0 where
  upper lower : Side

-- A bound of a threshold: a value beyond it, on its side, has its severity.
pub record Bound (F : Type 0) : Type 0 where
  pub side : Side
  pub severity : Severity
  pub limit : Option F

-- The bounds, the first that a value is beyond being the one that counts.
unfoldable pub bounds_of : {F : Type 0} → AreaThreshold F → List (Bound F)
bounds_of thr =
    record { side = upper; severity = high; limit = thr.critical_hi }
    ∷ record { side = upper; severity = medium; limit = thr.warning_hi }
    ∷ record { side = lower; severity = high; limit = thr.critical_lo }
    ∷ record { side = lower; severity = medium; limit = thr.warning_lo }
    ∷ []

module _ {F : Type 0} ⦃f : Float F⦄ where
  -- No value is beyond a bound that is absent.
  abbrev pub beyond : Side → Option F → F → Bool
  beyond side none value = false
  beyond upper (some limit) value = f.lt limit value
  beyond lower (some limit) value = f.lt value limit

  abbrev pub first_beyond : List (Bound F) → F → Option (Bound F)
  first_beyond [] value = none
  first_beyond (b ∷ bs) value =
      if beyond b.side b.limit value then some b else first_beyond bs value

  -- From 0 to anything else is a rise; else a change of more than 1 % counts.
  abbrev is_rise : F → F → Bool
  is_rise oldest current =
      if f.eq oldest (f.num 0)
      then not (f.eq current (f.num 0))
      else f.lt f.one_pct (f.div (f.sub current oldest) (f.abs oldest))

  abbrev is_fall : F → F → Bool
  is_fall oldest current =
      not (f.eq oldest (f.num 0))
      && f.lt (f.div (f.sub current oldest) (f.abs oldest)) f.minus_one_pct

  abbrev direction : F → F → Direction
  direction oldest current =
      if is_rise oldest current then rising else if is_fall oldest current then falling else stable

  -- The direction from the oldest of the last four values to the current one.
  unfoldable pub expected_trend : List F → F → Direction
  expected_trend history current = elim (last_n 4 history) [
    | [] ↦ stable
    | oldest ∷ later ↦ direction oldest current
  ]

  newest_of-append : (x : F) (xs : List F) (v : F) → newest_of x (xs ++ v ∷ []) ≡ v
  newest_of-append x [] v = refl
  newest_of-append x (y ∷ ys) v = newest_of-append y ys v

  trend_of-append :
      (window : List F) (v : F)
      → trend_of (window ++ v ∷ [])
        ≡ elim window [ [] ↦ stable | oldest ∷ later ↦ direction oldest v ]
  trend_of-append [] v = refl
  trend_of-append (x ∷ []) v = ground arith
  trend_of-append (x ∷ y ∷ ys) v = rw (newest_of-append y ys v) (ground arith)

  pub compute_trend-expected :
      (history : List F) (v : F) → compute_trend history v ≡ expected_trend history v
  unfolding compute_trend expected_trend
  compute_trend-expected history v =
      ap trend_of (sym (last_n-append 5 4 history (v ∷ []) (omega arith)))
      ∙ ap trend_of (
          last_n-short 5 (last_n 4 history ++ v ∷ [])
            (omega (arith, length-last_n 4 history, length-append (last_n 4 history) (v ∷ []))))
      ∙ trend_of-append (last_n 4 history) v

module _ {F : Type 0} ⦃f : Float F⦄ (msg : TelemetryMessage F)
    (existing : Dict String (List F)) where
  abbrev report_with : String → F → Bound F → Report F
  report_with parameter value b = record {
    kind = Kind.threshold;
    area_id = msg.area_id;
    sensor_id = some msg.sensor_id;
    parameter = some parameter;
    value = some value;
    severity = b.severity;
    bound = b.limit;
    trend = some (expected_trend (or_empty (lookup parameter existing)) value);
    ts_event = msg.ts;
  }

  abbrev pub report_for : Option (AreaThreshold F) → String → F → Option (Report F)
  report_for none parameter value = none
  report_for (some thr) parameter value = elim (first_beyond (bounds_of thr) value) [
    | none ↦ none
    | some b ↦ some (report_with parameter value b)
  ]

  -- One report for each measurement that has a threshold and is beyond a bound of it, in the order of
  -- the measurements.
  unfoldable pub expected : List (AreaThreshold F) → List (String × F) → List (Report F)
  expected ts [] = []
  expected ts ((p, v) ∷ items) = elim (report_for (last_for p ts) p v) [
    | none ↦ expected ts items
    | some r ↦ r ∷ expected ts items
  ]
