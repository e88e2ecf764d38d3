-- ===== src/RuleEngine/Trend.antt =====
-- `_compute_trend` of threshold_evaluator.py and the sliding window of consumer.py.
use flood_monitoring_and_man.Common.{ℕ, List, [], ◌∷◌, ◌++◌, last_n, if◌then◌else◌}
use flood_monitoring_and_man.Common.Float.{Float}
use flood_monitoring_and_man.RuleEngine.Models.{Direction, rising, falling, stable}

abbrev pub trend_window : ℕ
trend_window = 5

-- `window[-1]` of a window that begins with `x`.
abbrev pub newest_of {ℓ} : {A : Type ℓ} → A → List A → A
newest_of x [] = x
newest_of x (y ∷ ys) = newest_of y ys

module _ {F : Type 0} ⦃f : Float F⦄ where
  abbrev pub compare_ends : F → F → Direction
  compare_ends oldest newest =
      if f.eq oldest (f.num 0)
      then if f.eq newest (f.num 0) then stable else rising
      else let delta_pct = f.div (f.sub newest oldest) (f.abs oldest) in
        if f.lt f.one_pct delta_pct
        then rising
        else if f.lt delta_pct f.minus_one_pct
        then falling
        else stable

  abbrev pub trend_of : List F → Direction
  trend_of [] = stable
  trend_of (x ∷ []) = stable
  trend_of (x ∷ y ∷ ys) = compare_ends x (newest_of y ys)

  unfoldable pub compute_trend : List F → F → Direction
  compute_trend history current = trend_of (last_n trend_window (history ++ current ∷ []))
