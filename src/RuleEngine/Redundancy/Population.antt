-- ===== src/RuleEngine/Redundancy/Population.antt =====
-- What an operational count promises: it is the number of sensors of the area and parameter that are
-- not in a fault, over any sequence of their readings.
use flood_monitoring_and_man.Common.{
  ℕ, suc, ◌+◌, String, List, [], ◌∷◌, some, Bool, true, false, Bool-cases, inl, inr, if◌then◌else◌,
  ◌≡◌, refl, ◌==◌, string_eq, arith, length, eq_iff, All,
}
use flood_monitoring_and_man.Common.Int.{pos, is_negative}
use flood_monitoring_and_man.Common.Redis.{
  Redis, RedisLaws, operational_count, fault_count, or_zero, key_eq,
}
use flood_monitoring_and_man.RuleEngine.Models.{Draw}
use flood_monitoring_and_man.RuleEngine.Redundancy.{Tracker, on_sensor_reading}
use flood_monitoring_and_man.RuleEngine.Redundancy.Counts.{contains, IsDistinct}
use flood_monitoring_and_man.RuleEngine.Redundancy.Faults.{
  is_healthy, count-fault, fault_count-fault, count-recovery, fault_count-recovery,
}

-- How many members of a list pass a test.
abbrev pub count_if : (String → Bool) → List String → ℕ
count_if g [] = 0
count_if g (s ∷ ss) = if g s then suc (count_if g ss) else count_if g ss

count_if-absent :
    (g h : String → Bool) (s : String) (b : Bool) (ss : List String)
    → ((t : String) → h t ≡ (if s == t then b else g t))
    → contains s ss ≡ false
    → count_if h ss ≡ count_if g ss
count_if-absent g h s b [] e m = refl
count_if-absent g h s b (t ∷ ss) e m =
    ground (arith, e t, eq_iff s t, eq_iff t s, count_if-absent g h s b ss e)

-- Setting the test at one member of a list of distinct members.
count_if-set :
    (g h : String → Bool) (s : String) (b : Bool) (ss : List String)
    → ((t : String) → h t ≡ (if s == t then b else g t))
    → contains s ss ≡ true
    → IsDistinct ss
    → count_if h ss + (if g s then 1 else 0) ≡ count_if g ss + (if b then 1 else 0)
count_if-set g h s b [] e m dist = ground arith
count_if-set g h s b (t ∷ ss) e m dist = elim (Bool-cases (t == s)) [
  | inl same ↦ ground (arith, e t, eq_iff s t, eq_iff t s, count_if-absent g h s b ss e)
  | inr other ↦
      ground (arith, e t, eq_iff s t, eq_iff t s, count_if-set g h s b ss e (ground arith) dist.1)
]

-- A call of `on_sensor_reading` for a sensor of the area.
pub record Reading : Type 0 where
  pub sensor_id : String
  pub parameters : List String
  pub status : Bool
  pub ts_event : String

module _ {R : Type 0} ⦃d : Redis R⦄ where
  -- Readings of one area in turn; the draws go on from alert to alert.
  unfoldable pub run :
      (F : Type 0) (draw : ℕ → Draw) → String → ℕ → List Reading → Tracker R → Tracker R
  run F draw a n [] t = t
  run F draw a n (x ∷ xs) t =
      let (t', alerts) =
        on_sensor_reading F draw n x.sensor_id a x.parameters x.status x.ts_event t in
      run F draw a (n + length alerts) xs t'

-- A reading of a known sensor that measures `p`.
pub record Measures (p : String) (population : List String) (x : Reading) : Type 0 where
  pub known : contains x.sensor_id population ≡ true
  pub distinct : IsDistinct x.parameters
  pub measured : contains p x.parameters ≡ true

module _ {R : Type 0} ⦃d : Redis R⦄ (a p : String) (population : List String) where
  -- The count is the number of healthy sensors, and no fault counter is negative.
  pub record IsExact (r : R) : Type 0 where
    pub count_exact :
        d.get r (operational_count a p) ≡ some (pos (count_if (λ s. is_healthy s r) population))
    pub faults_nonneg : (s : String) → is_negative (or_zero (d.get r (fault_count s))) ≡ false

module _ {R : Type 0} ⦃d : Redis R⦄ (laws : RedisLaws R) (F : Type 0) (draw : ℕ → Draw)
    (a p : String) (population : List String) where
  healthy-fault :
      (n : ℕ) (s : String) (ps : List String) (ts : String) (t : Tracker R) (s' : String)
      → is_negative (or_zero (d.get t.redis (fault_count s))) ≡ false
      → is_healthy s' (on_sensor_reading F draw n s a ps false ts t).0.redis
        ≡ (if s == s' then false else is_healthy s' t.redis)
  unfolding is_healthy
  healthy-fault n s ps ts t s' nonneg =
      ground (arith, fault_count-fault laws F draw s a ts n ps t s')

  healthy-recovery :
      (n : ℕ) (s : String) (ps : List String) (ts : String) (t : Tracker R) (s' : String)
      → is_healthy s' (on_sensor_reading F draw n s a ps true ts t).0.redis
        ≡ (if s == s' then true else is_healthy s' t.redis)
  unfolding is_healthy
  healthy-recovery n s ps ts t s' =
      ground (arith, fault_count-recovery laws F draw s a ts n ps t s', eq_iff s s')

  fault-IsExact :
      (n : ℕ) (s : String) (ps : List String) (ts : String) (t : Tracker R)
      → IsDistinct population
      → contains s population ≡ true
      → IsDistinct ps
      → contains p ps ≡ true
      → IsExact a p population t.redis
      → IsExact a p population (on_sensor_reading F draw n s a ps false ts t).0.redis
  fault-IsExact n s ps ts t dist known distinct measured exact =
      let r' = (on_sensor_reading F draw n s a ps false ts t).0.redis in
      record {
        count_exact = ground (
          arith,
          exact.count_exact,
          count-fault laws F draw s a ts n ps t a p distinct,
          eq_iff a a,
          count_if-set (λ s'. is_healthy s' t.redis) (λ s'. is_healthy s' r') s false population
              (λ s'. healthy-fault n s ps ts t s' (exact.faults_nonneg s)) known dist,
        );
        faults_nonneg = λ s'. ground (
          arith,
          fault_count-fault laws F draw s a ts n ps t s',
          exact.faults_nonneg s,
          exact.faults_nonneg s',
        );
      }

  recovery-IsExact :
      (n : ℕ) (s : String) (ps : List String) (ts : String) (t : Tracker R)
      → IsDistinct population
      → contains s population ≡ true
      → IsDistinct ps
      → contains p ps ≡ true
      → IsExact a p population t.redis
      → IsExact a p population (on_sensor_reading F draw n s a ps true ts t).0.redis
  recovery-IsExact n s ps ts t dist known distinct measured exact =
      let r' = (on_sensor_reading F draw n s a ps true ts t).0.redis in
      record {
        count_exact = ground (
          arith,
          exact.count_exact,
          count-recovery laws F draw s a ts n ps t a p distinct,
          eq_iff a a,
          count_if-set (λ s'. is_healthy s' t.redis) (λ s'. is_healthy s' r') s true population
              (λ s'. healthy-recovery n s ps ts t s') known dist,
        );
        faults_nonneg = λ s'.
            ground
              (arith, fault_count-recovery laws F draw s a ts n ps t s', exact.faults_nonneg s');
      }

  reading-IsExact :
      (n : ℕ) (x : Reading) (t : Tracker R)
      → IsDistinct population
      → Measures p population x
      → IsExact a p population t.redis
      → IsExact a p population
          (on_sensor_reading F draw n x.sensor_id a x.parameters x.status x.ts_event t).0.redis
  reading-IsExact n x t dist m exact = elim (Bool-cases x.status) [
    | inl up ↦ rw up (
        recovery-IsExact n x.sensor_id x.parameters x.ts_event t dist m.known m.distinct m.measured
          exact)
    | inr down ↦ rw down (
        fault-IsExact n x.sensor_id x.parameters x.ts_event t dist m.known m.distinct m.measured
          exact)
  ]

  -- From a store in which the count of an area and parameter is the number of its sensors without a
  -- recorded fault, any sequence of readings of those sensors, each of which measures the parameter,
  -- leaves it so, as long as no key expires in between.
  pub run-IsExact :
      (n : ℕ) (xs : List Reading) (t : Tracker R)
      → IsDistinct population
      → All (Measures p population) xs
      → IsExact a p population t.redis
      → IsExact a p population (run F draw a n xs t).redis
  unfolding run
  run-IsExact n [] t dist ms exact = exact
  run-IsExact n (x ∷ xs) t dist ms exact =
      let (t', alerts) =
        on_sensor_reading F draw n x.sensor_id a x.parameters x.status x.ts_event t in
      run-IsExact (n + length alerts) xs t' dist ms.1 (reading-IsExact n x t dist ms.0 exact)
