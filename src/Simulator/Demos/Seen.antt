-- ===== src/Simulator/Demos/Seen.antt =====
-- What one reading of a sensor does to the faults and the count that the tracker of the rule engine
-- (services/rule-engine/src/rule_engine/redundancy_tracker.py) has of two sensors.
use flood_monitoring_and_man.Common.{
  ℕ, suc, String, List, [], ◌∷◌, Bool, true, false, ◌≡◌, refl, arith, ◌==◌, string_eq, eq_iff, map,
  ap, ◌∙◌,
}
use flood_monitoring_and_man.Common.Int.{ℤ, pos}
use flood_monitoring_and_man.Common.Redis.{Redis, RedisLaws, fault_count, or_zero, key_eq}
use flood_monitoring_and_man.RuleEngine.Models.{Alert, Draw}
use flood_monitoring_and_man.RuleEngine.Redundancy.{Tracker, on_sensor_reading, handle_recovery}
use flood_monitoring_and_man.RuleEngine.Redundancy.Counts.{pred_clamped}
use flood_monitoring_and_man.RuleEngine.Redundancy.Faults.{
  is_healthy, count-fault, fault_count-fault, repeated_fault_silent,
}
use flood_monitoring_and_man.RuleEngine.Redundancy.Notices.{
  notice_of, notices, notices-first_fault, count_of,
}
use flood_monitoring_and_man.Simulator.Demos.{district}

abbrev pub level : String
level = "water_level_m"

module _ {R : Type 0} ⦃d : Redis R⦄ where
  -- How many faults of two sensors are recorded, and the count of their district.
  pub record IsSeen (s o : String) (k l : ℕ) (c : ℤ) (t : Tracker R) : Type 0 where
    pub faults : or_zero (d.get t.redis (fault_count s)) ≡ pos k
    pub other_faults : or_zero (d.get t.redis (fault_count o)) ≡ pos l
    pub count : count_of district t.redis level ≡ c

module _ {R : Type 0} ⦃d : Redis R⦄ (laws : RedisLaws R) (F : Type 0) (draw : ℕ → Draw) where
  abbrev pub react : ℕ → String → Bool → String → Tracker R → Tracker R × List (Alert F)
  react n s up ts t = on_sensor_reading F draw n s district (level ∷ []) up ts t

  -- A healthy reading of a sensor without a fault changes nothing.
  pub react-healthy :
      (n : ℕ) (s : String) (ts : String) (t : Tracker R)
      → or_zero (d.get t.redis (fault_count s)) ≡ pos 0
      → react n s true ts t ≡ (t, [])
  unfolding on_sensor_reading handle_recovery
  react-healthy n s ts t none_recorded = ground (arith, none_recorded)

  notices-count :
      (n : ℕ) (s ts : String) (c : ℤ) (t : Tracker R)
      → count_of district t.redis level ≡ c
      → notices draw s district ts (count_of district t.redis) n (level ∷ [])
        ≡ notices draw s district ts (λ p. c) n (level ∷ [])
  unfolding notices
  notices-count n s ts c t is = rw is refl

  -- The first fault of a sensor is recorded, takes one off the count, and is announced.
  pub react-first :
      (n : ℕ) (s o : String) (l : ℕ) (c : ℤ) (ts : String) (t : Tracker R)
      → (s == o) ≡ false
      → IsSeen s o 0 l c t
      → IsSeen s o 1 l (pred_clamped c) (react n s false ts t).0
        × (map notice_of (react n s false ts t).1
            ≡ notices draw s district ts (λ p. c) n (level ∷ []))
  react-first n s o l c ts t apart seen =
      let first : is_healthy s t.redis ≡ true = unfold is_healthy in ground (arith, seen.faults) in
      (
        record {
          faults = ground (
            arith,
            eq_iff s s,
            seen.faults,
            fault_count-fault laws F draw s district ts n (level ∷ []) t s,
          );
          other_faults = ground (
            arith,
            apart,
            seen.other_faults,
            fault_count-fault laws F draw s district ts n (level ∷ []) t o,
          );
          count = ground (
            arith,
            first,
            seen.count,
            eq_iff district district,
            eq_iff level level,
            count-fault laws F draw s district ts n (level ∷ []) t district level (refl, tt),
          );
        },
        notices-first_fault laws F draw s district ts n (level ∷ []) t (refl, tt) first
            ∙ notices-count n s ts c t seen.count,
      )

  -- A further fault of a sensor is recorded and has no other effect.
  pub react-again :
      (n : ℕ) (s o : String) (k l : ℕ) (c : ℤ) (ts : String) (t : Tracker R)
      → (s == o) ≡ false
      → IsSeen s o (suc k) l c t
      → IsSeen s o (suc (suc k)) l c (react n s false ts t).0 × ((react n s false ts t).1 ≡ [])
  react-again n s o k l c ts t apart seen =
      let again : is_healthy s t.redis ≡ false = unfold is_healthy in ground (arith, seen.faults) in
      let silent = repeated_fault_silent laws F draw s district ts n (level ∷ []) t again in
      (
        record {
          faults = ground (
            arith,
            eq_iff s s,
            seen.faults,
            fault_count-fault laws F draw s district ts n (level ∷ []) t s,
          );
          other_faults = ground (
            arith,
            apart,
            seen.other_faults,
            fault_count-fault laws F draw s district ts n (level ∷ []) t o,
          );
          count = ap or_zero (silent.2 district level) ∙ seen.count;
        },
        silent.0,
      )

pub swapped :
    {R : Type 0} ⦃d : Redis R⦄ (s o : String) (k l : ℕ) (c : ℤ) (t : Tracker R)
    → IsSeen s o k l c t
    → IsSeen o s l k c t
swapped s o k l c t seen = record {
  faults = seen.other_faults;
  other_faults = seen.faults;
  count = seen.count;
}
