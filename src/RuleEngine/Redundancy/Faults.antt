-- ===== src/RuleEngine/Redundancy/Faults.antt =====
-- What one reading does to the counters of the tracker.
use flood_monitoring_and_man.Common.{
  ℕ, String, List, [], none, some, Bool, true, false, not, ◌&&◌, Bool-cases, inl, inr,
  if◌then◌else◌, ◌≡◌, refl, ◌==◌, string_eq, arith, ◌∙◌,
}
use flood_monitoring_and_man.Common.Int.{is_nat, succ}
use flood_monitoring_and_man.Common.Redis.{
  Redis, RedisLaws, CounterKey, operational_count, fault_count, or_zero, key_eq,
}
use flood_monitoring_and_man.RuleEngine.Models.{Draw}
use flood_monitoring_and_man.RuleEngine.Redundancy.{
  Tracker, fault_loop, handle_fault, handle_recovery, on_sensor_reading, fault_count_ttl_s,
}
use flood_monitoring_and_man.RuleEngine.Redundancy.Counts.{
  pred_clamped, contains, IsDistinct, count-fault_loop, fault_count-fault_loop, count-recovery_loop,
  fault_count-recovery_loop,
}

module _ {R : Type 0} ⦃d : Redis R⦄ (sensor : String) where
  -- No fault of the sensor is recorded.
  unfoldable pub is_healthy : R → Bool
  is_healthy r = is_nat 0 (or_zero (d.get r (fault_count sensor)))

  -- The tracker with one more fault of the sensor recorded.
  abbrev pub marked : Tracker R → Tracker R
  marked t = record t {
    redis = d.expire (fault_count sensor) fault_count_ttl_s (d.incr (fault_count sensor) t.redis).0;
  }

module _ {R : Type 0} ⦃d : Redis R⦄ (laws : RedisLaws R) (F : Type 0) (draw : ℕ → Draw)
    (sensor a ts : String) where
  pub get-marked :
      (t : Tracker R) (j : CounterKey)
      → d.get (marked sensor t).redis j ≡ (
          if fault_count sensor == j
          then some (succ (or_zero (d.get t.redis (fault_count sensor))))
          else d.get t.redis j)
  get-marked t j =
      laws.get-expire (fault_count sensor) j fault_count_ttl_s _
      ∙ laws.get-incr (fault_count sensor) j t.redis

  pub handle_fault_first :
      (n : ℕ) (ps : List String) (t : Tracker R)
      → is_healthy sensor t.redis ≡ true
      → handle_fault F draw sensor a ts n ps t
        ≡ fault_loop F draw sensor a ts n ps (marked sensor t)
  unfolding handle_fault is_healthy
  handle_fault_first n ps t first = ground (arith, laws.incr_result (fault_count sensor) t.redis)

  handle_fault_again :
      (n : ℕ) (ps : List String) (t : Tracker R)
      → is_healthy sensor t.redis ≡ false
      → handle_fault F draw sensor a ts n ps t ≡ (marked sensor t, [])
  unfolding handle_fault is_healthy
  handle_fault_again n ps t again = ground (arith, laws.incr_result (fault_count sensor) t.redis)

  -- A reading with status 0 takes one off the count of each of its parameters in its area, but not
  -- below 0, if no fault of the sensor was recorded; if one was, it changes no count.
  pub count-fault :
      (n : ℕ) (ps : List String) (t : Tracker R) (b q : String)
      → IsDistinct ps
      → d.get (on_sensor_reading F draw n sensor a ps false ts t).0.redis (operational_count b q)
        ≡ (if is_healthy sensor t.redis && ((a == b) && contains q ps)
            then some (pred_clamped (or_zero (d.get t.redis (operational_count b q))))
            else d.get t.redis (operational_count b q))
  unfolding on_sensor_reading
  count-fault n ps t b q h = elim (Bool-cases (is_healthy sensor t.redis)) [
    | inl first ↦
        rw (handle_fault_first n ps t first, first)
          (ground (
            arith,
            count-fault_loop laws F draw sensor a ts n ps (marked sensor t) b q h,
            get-marked t (operational_count b q),
          ))
    | inr again ↦ rw (handle_fault_again n ps t again, again) (get-marked t (operational_count b q))
  ]

  -- It adds one to the fault counter of its sensor and changes no other.
  pub fault_count-fault :
      (n : ℕ) (ps : List String) (t : Tracker R) (s : String)
      → d.get (on_sensor_reading F draw n sensor a ps false ts t).0.redis (fault_count s) ≡ (
          if sensor == s
          then some (succ (or_zero (d.get t.redis (fault_count sensor))))
          else d.get t.redis (fault_count s))
  unfolding on_sensor_reading
  fault_count-fault n ps t s = elim (Bool-cases (is_healthy sensor t.redis)) [
    | inl first ↦ rw (handle_fault_first n ps t first) (
        fault_count-fault_loop laws F draw sensor a ts n ps (marked sensor t) s
        ∙ get-marked t (fault_count s))
    | inr again ↦ rw (handle_fault_again n ps t again) (get-marked t (fault_count s))
  ]

  -- While a fault of the sensor is recorded, further readings with status 0 raise no alert, add no
  -- metric and change no operational count.
  pub repeated_fault_silent :
      (n : ℕ) (ps : List String) (t : Tracker R)
      → is_healthy sensor t.redis ≡ false
      → let (t', alerts) = on_sensor_reading F draw n sensor a ps false ts t in
        (alerts ≡ [])
        × (t'.metrics ≡ t.metrics)
        × ((b q : String)
            → d.get t'.redis (operational_count b q) ≡ d.get t.redis (operational_count b q))
  unfolding on_sensor_reading
  repeated_fault_silent n ps t again =
      rw (handle_fault_again n ps t again) (refl, refl, λ b q. get-marked t (operational_count b q))

  -- A reading with status 1 adds one to the count of each of its parameters in its area if a fault
  -- of the sensor was recorded, and else changes no count.
  pub count-recovery :
      (n : ℕ) (ps : List String) (t : Tracker R) (b q : String)
      → IsDistinct ps
      → d.get (on_sensor_reading F draw n sensor a ps true ts t).0.redis (operational_count b q) ≡ (
          if not (is_healthy sensor t.redis) && ((a == b) && contains q ps)
          then some (succ (or_zero (d.get t.redis (operational_count b q))))
          else d.get t.redis (operational_count b q))
  unfolding on_sensor_reading handle_recovery is_healthy
  count-recovery n ps t b q h = ground (
    arith,
    count-recovery_loop laws a ps (d.delete (fault_count sensor) t.redis) b q h,
    laws.get-delete (fault_count sensor) (operational_count b q) t.redis,
  )

  -- It clears the sensor's fault counter, or leaves it absent or 0, and changes no other.
  pub fault_count-recovery :
      (n : ℕ) (ps : List String) (t : Tracker R) (s : String)
      → d.get (on_sensor_reading F draw n sensor a ps true ts t).0.redis (fault_count s) ≡ (
          if not (is_healthy sensor t.redis) && (sensor == s)
          then none
          else d.get t.redis (fault_count s))
  unfolding on_sensor_reading handle_recovery is_healthy
  fault_count-recovery n ps t s = ground (
    arith,
    fault_count-recovery_loop laws a ps (d.delete (fault_count sensor) t.redis) s,
    laws.get-delete (fault_count sensor) (fault_count s) t.redis,
  )
