-- ===== src/RuleEngine/Evaluator/Severities.antt =====
-- What the ladder of tests in `evaluate_thresholds` decides.
use flood_monitoring_and_man.Common.{
  Option, none, some, Bool, true, false, not, ◌||◌, ◌≡◌, ◌⊎◌, arith, if◌then◌else◌,
}
use flood_monitoring_and_man.Common.Float.{Float}
use flood_monitoring_and_man.RuleEngine.Models.{AreaThreshold, Severity, medium, high}
use flood_monitoring_and_man.RuleEngine.Evaluator.Expected.{upper, lower, beyond}
use flood_monitoring_and_man.RuleEngine.Evaluator.{above, below, crossed}

module _ {F : Type 0} ⦃f : Float F⦄ where
  -- The intended meaning, from the bounds alone: beyond a critical bound on either side is high,
  -- else beyond a warning bound on either side is medium.
  unfoldable pub intended_severity : AreaThreshold F → F → Option Severity
  intended_severity thr value =
      if beyond upper thr.critical_hi value || beyond lower thr.critical_lo value
      then some high
      else if beyond upper thr.warning_hi value || beyond lower thr.warning_lo value
      then some medium
      else none

  -- The lower critical bound does not lie above the upper warning bound.
  unfoldable pub are_apart : Option F → Option F → Bool
  are_apart (some lo) (some hi) = not (f.lt hi lo)
  are_apart (some lo) none = true
  are_apart none hi = true

  apart-above-below :
      (trans : (a b c : F) → f.lt a b ≡ true → f.lt b c ≡ true → f.lt a c ≡ true) (lo hi : Option F)
      (value : F)
      → are_apart lo hi ≡ true
      → above hi value ≡ true
      → below lo value ≡ false
  unfolding are_apart
  apart-above-below trans none hi value h a = ground arith
  apart-above-below trans (some lo) none value h a = ground arith
  apart-above-below trans (some lo) (some hi) value h a = ground (arith, trans hi value lo)

  -- Where `<` on floats is transitive and `critical_lo` does not lie above `warning_hi`, the ladder, which
  -- tests the upper bounds first, gives the intended severity: high beyond a critical bound on either
  -- side, else medium beyond a warning bound on either side, and none within all four.
  pub crossed-severity :
      (trans : (a b c : F) → f.lt a b ≡ true → f.lt b c ≡ true → f.lt a c ≡ true)
      (thr : AreaThreshold F) (value : F)
      → are_apart thr.critical_lo thr.warning_hi ≡ true
      → (crossed thr value).0 ≡ intended_severity thr value
  unfolding crossed intended_severity
  crossed-severity trans thr value h =
      ground (arith, apart-above-below trans thr.critical_lo thr.warning_hi value)

  -- An alert names a bound that is configured and that the value lies beyond; without an alert the
  -- value lies within all four bounds.
  pub crossed-bound :
      (thr : AreaThreshold F) (value bound : F) (s : Severity)
      → crossed thr value ≡ (some s, some bound)
      → ((f.lt bound value ≡ true)
          × ((thr.critical_hi ≡ some bound) × (s ≡ high)
              ⊎ (thr.warning_hi ≡ some bound) × (s ≡ medium)))
        ⊎ ((f.lt value bound ≡ true)
            × ((thr.critical_lo ≡ some bound) × (s ≡ high)
                ⊎ (thr.warning_lo ≡ some bound) × (s ≡ medium)))
  unfolding crossed
  crossed-bound thr value bound s h = ground arith
