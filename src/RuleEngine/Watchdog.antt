-- ===== src/RuleEngine/Watchdog.antt =====
-- `SensorWatchdog._scan` of services/rule-engine/src/rule_engine/watchdog.py. The keys that the SCAN
-- loop returns in all its rounds are an argument, as are `json.loads` and `datetime.fromisoformat`,
-- which are not in the repository; instants are numbers of seconds.
pub mod Silence
pub mod Quiet
pub mod Timing
pub mod Unnoticed
pub mod Noticed
use flood_monitoring_and_man.Common.{
  ℕ, suc, ◌+◌, ◌-◌, String, List, [], ◌∷◌, Option, none, some, Bool, true, false, ltb, ◌==◌,
  string_eq, length, if◌then◌else◌,
}
use flood_monitoring_and_man.Common.HotState.{HotState}
use flood_monitoring_and_man.Common.Redis.{Redis}
use flood_monitoring_and_man.Wire.Parameters.{present}
use flood_monitoring_and_man.RuleEngine.Models.{Draw}
use flood_monitoring_and_man.RuleEngine.Redundancy.{Tracker, on_sensor_reading}

-- The fields that `_scan` reads of the decoded object; `none` is a key that is absent or null.
pub record Latest (F : Type 0) : Type 0 where
  pub sensor_id : Option String
  pub area_id : Option String
  pub ts : Option String
  pub ingested_at : Option String
  pub measurements : List (String × Option F)

-- `a or b` on texts that may be absent: an absent or empty text is false.
abbrev pub truthy : Option String → Option String
truthy none = none
truthy (some s) = if s == "" then none else some s

abbrev pub str_or : Option String → Option String → Option String
str_or a b = elim (truthy a) [ some s ↦ some s | none ↦ truthy b ]

abbrev pub names : {F : Type 0} → List (String × F) → List String
names [] = []
names ((k, v) ∷ items) = k ∷ names items

pub record Scan (R : Type 0) : Type 0 where
  pub tracker : Tracker R
  pub silent_count : ℕ
  pub drawn : ℕ

-- What a key with a decoded value is reported as: the sensor, the area, the parameters and the time.
pub record Silent : Type 0 where
  pub sensor : String
  pub area : String
  pub params : List String
  pub at : String

-- `if sensor_id and area_id and params`
abbrev pub reportable : Option String → Option String → List String → String → Option Silent
reportable (some sensor) (some area) (p ∷ ps) at =
    some (record { sensor = sensor; area = area; params = p ∷ ps; at = at })
reportable _ _ _ _ = none

module _ {F M : Type 0} (loads : M → Option (Latest F)) (parse_time : String → Option ℕ)
    (timeout now : ℕ) where
  abbrev silent_since : Latest F → String → Option ℕ → Option Silent
  silent_since l at none = none
  silent_since l at (some ingested_at) =
      if ltb (timeout + ingested_at) now
      then reportable (truthy l.sensor_id) (truthy l.area_id)
          (unfold present in names (present l.measurements)) at
      else none

  -- One decoded value, up to the call of the tracker; `none` is a `continue` or a false test.
  unfoldable pub inspect : Latest F → Option Silent
  unfolding present
  inspect l = elim (str_or l.ingested_at l.ts) [
    | none ↦ none
    | some at ↦ silent_since l at (parse_time at)
  ]

  abbrev pub find_silent : Option M → Option Silent
  find_silent none = none
  find_silent (some raw) = elim (loads raw) [ none ↦ none | some l ↦ inspect l ]

module _ (F : Type 0) {R : Type 0} ⦃d : Redis R⦄ (draw : ℕ → Draw) where
  -- The tracker's alerts are dropped: only its effect on the counters stays.
  unfoldable pub report : Option Silent → Scan R → Scan R
  report none c = c
  report (some x) c =
      let (t, alerts) =
        on_sensor_reading F draw c.drawn x.sensor x.area x.params false x.at c.tracker in
      record { tracker = t; silent_count = suc c.silent_count; drawn = c.drawn + length alerts }

module _ {F R H M : Type 0} ⦃d : Redis R⦄ ⦃s : HotState H M⦄ (loads : M → Option (Latest F))
    (parse_time : String → Option ℕ) (timeout now : ℕ) (draw : ℕ → Draw) (h : H) where
  unfoldable pub scan : List String → Scan R → Scan R
  unfolding inspect report
  scan [] c = c
  scan (sensor ∷ keys) c =
      scan keys (report F draw (find_silent loads parse_time timeout now (s.get_latest h sensor)) c)
