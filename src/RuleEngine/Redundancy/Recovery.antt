-- ===== src/RuleEngine/Redundancy/Recovery.antt =====
-- A fault and the recovery after it.
use flood_monitoring_and_man.Common.{
  ℕ, suc, String, List, some, true, false, ◌≡◌, string_eq, arith, eq_iff,
}
use flood_monitoring_and_man.Common.Int.{pos}
use flood_monitoring_and_man.Common.Redis.{Redis, RedisLaws, operational_count, or_zero, key_eq}
use flood_monitoring_and_man.RuleEngine.Models.{Draw}
use flood_monitoring_and_man.RuleEngine.Redundancy.{Tracker, on_sensor_reading}
use flood_monitoring_and_man.RuleEngine.Redundancy.Counts.{contains, IsDistinct}
use flood_monitoring_and_man.RuleEngine.Redundancy.Faults.{
  is_healthy, count-fault, fault_count-fault, count-recovery, fault_count-recovery,
}

module _ {R : Type 0} ⦃d : Redis R⦄ (F : Type 0) (draw : ℕ → Draw) (n m : ℕ) (sensor a : String)
    (ps : List String) (ts ts' : String) (t : Tracker R) where
  -- The store after a reading with status 0 and one with status 1, of the same parameters.
  abbrev pub fault_and_recovery : R
  fault_and_recovery =
      (on_sensor_reading F draw m sensor a ps true ts'
        (on_sensor_reading F draw n sensor a ps false ts t).0).0.redis

module _ {R : Type 0} ⦃d : Redis R⦄ (laws : RedisLaws R) (F : Type 0) (draw : ℕ → Draw) (n m : ℕ)
    (sensor a : String) (ps : List String) (ts ts' : String) (t : Tracker R) where
  faulty-fault :
      is_healthy sensor t.redis ≡ true
      → is_healthy sensor (on_sensor_reading F draw n sensor a ps false ts t).0.redis ≡ false
  unfolding is_healthy
  faulty-fault healthy =
      ground (arith, fault_count-fault laws F draw sensor a ts n ps t sensor, eq_iff sensor sensor)

  -- A reading with status 0 and then one with status 1 of the same sensor, which name the same area and
  -- the same distinct parameters: if no fault of the sensor was recorded before and a count was positive,
  -- whether or not it is one of that area and those parameters, the two leave the count as it was and no
  -- fault of the sensor recorded.
  pub count-fault_and_recovery :
      (b q : String) (k : ℕ)
      → IsDistinct ps
      → is_healthy sensor t.redis ≡ true
      → d.get t.redis (operational_count b q) ≡ some (pos (suc k))
      → (d.get (fault_and_recovery F draw n m sensor a ps ts ts' t) (operational_count b q)
          ≡ some (pos (suc k)))
        × (is_healthy sensor (fault_and_recovery F draw n m sensor a ps ts ts' t) ≡ true)
  count-fault_and_recovery b q k dist healthy before =
      let t' = (on_sensor_reading F draw n sensor a ps false ts t).0 in
      (
        ground (
          arith,
          count-recovery laws F draw sensor a ts' m ps t' b q dist,
          count-fault laws F draw sensor a ts n ps t b q dist,
          faulty-fault healthy,
        ),
        unfold is_healthy in
            ground (
              arith,
              fault_count-recovery laws F draw sensor a ts' m ps t' sensor,
              faulty-fault healthy,
              eq_iff sensor sensor,
            ),
      )

  -- If the count was absent or 0, it is 1 after a fault and a recovery of a sensor that measures the
  -- parameter: one more than before.
  pub count-fault_and_recovery_from_zero :
      (q : String)
      → IsDistinct ps
      → contains q ps ≡ true
      → is_healthy sensor t.redis ≡ true
      → or_zero (d.get t.redis (operational_count a q)) ≡ pos 0
      → d.get (fault_and_recovery F draw n m sensor a ps ts ts' t) (operational_count a q)
        ≡ some (pos 1)
  count-fault_and_recovery_from_zero q dist measured healthy before =
      let t' = (on_sensor_reading F draw n sensor a ps false ts t).0 in
      ground (
        arith,
        count-recovery laws F draw sensor a ts' m ps t' a q dist,
        count-fault laws F draw sensor a ts n ps t a q dist,
        faulty-fault healthy,
        eq_iff a a,
      )
