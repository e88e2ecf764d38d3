-- ===== src/RuleEngine/Redundancy/Counts.antt =====
-- What the tracker's operations do to the counters in Redis.
use flood_monitoring_and_man.Common.{
  ℕ, zero, suc, ◌+◌, String, List, [], ◌∷◌, ◌++◌, some, Bool, false, ◌||◌, ◌&&◌, length,
  if◌then◌else◌, ◌≡◌, refl, ◌==◌, string_eq, arith, ◌∙◌, eq_iff,
}
use flood_monitoring_and_man.Common.Int.{ℤ, pos, negsuc, succ}
use flood_monitoring_and_man.Common.Redis.{
  Redis, RedisLaws, CounterKey, operational_count, fault_count, or_zero, key_eq,
}
use flood_monitoring_and_man.RuleEngine.Models.{Draw}
use flood_monitoring_and_man.RuleEngine.Redundancy.{
  Tracker, decrement, increment, fault_loop, recovery_loop, fault_alerts, fault_metrics,
}

-- One less, and not below 0.
abbrev pub pred_clamped : ℤ → ℤ
pred_clamped (pos zero) = pos 0
pred_clamped (pos (suc n)) = pos n
pred_clamped (negsuc n) = pos 0

abbrev pub contains : String → List String → Bool
contains p [] = false
contains p (q ∷ qs) = (q == p) || contains p qs

abbrev pub IsDistinct : List String → Type 0
IsDistinct [] = Unit
IsDistinct (p ∷ ps) = (contains p ps ≡ false) × IsDistinct ps

module _ {R : Type 0} ⦃d : Redis R⦄ (laws : RedisLaws R) where
  -- The stored and the returned count are one less than before, and at least 0.
  pub decrement_result :
      (a p : String) (r : R)
      → (decrement a p r).1 ≡ pred_clamped (or_zero (d.get r (operational_count a p)))
  unfolding decrement
  decrement_result a p r = ground (arith, laws.decr_result (operational_count a p) r)

  pub get-decrement :
      (a p : String) (j : CounterKey) (r : R)
      → d.get (decrement a p r).0 j ≡ (
          if operational_count a p == j
          then some (pred_clamped (or_zero (d.get r (operational_count a p))))
          else d.get r j)
  unfolding decrement
  get-decrement a p j r = ground (
    arith,
    laws.decr_result (operational_count a p) r,
    laws.get-decr (operational_count a p) j r,
    laws.get-set (operational_count a p) j (pos 0) (d.decr (operational_count a p) r).0,
  )

  module _ (F : Type 0) (draw : ℕ → Draw) (sensor a ts : String) where
    -- A loop over distinct parameters takes one off the count of each of them, in its area, and
    -- changes no other count.
    pub count-fault_loop :
        (n : ℕ) (ps : List String) (t : Tracker R) (b q : String)
        → IsDistinct ps
        → d.get (fault_loop F draw sensor a ts n ps t).0.redis (operational_count b q) ≡ (
            if (a == b) && contains q ps
            then some (pred_clamped (or_zero (d.get t.redis (operational_count b q))))
            else d.get t.redis (operational_count b q))
    unfolding fault_loop
    count-fault_loop n [] t b q h = ground arith
    count-fault_loop n (p ∷ ps) t b q h =
        let (r, c) = decrement a p t.redis in
        let t' : Tracker R = record { redis = r; metrics = t.metrics ++ fault_metrics c } in
        let m = n + length (fault_alerts F draw sensor a ts n p c) in
        ground (
          arith,
          count-fault_loop m ps t' b q h.1,
          get-decrement a p (operational_count b q) t.redis,
          eq_iff p q,
          eq_iff a b,
        )

    pub fault_count-fault_loop :
        (n : ℕ) (ps : List String) (t : Tracker R) (s : String)
        → d.get (fault_loop F draw sensor a ts n ps t).0.redis (fault_count s)
          ≡ d.get t.redis (fault_count s)
    unfolding fault_loop
    fault_count-fault_loop n [] t s = refl
    fault_count-fault_loop n (p ∷ ps) t s =
        let (r, c) = decrement a p t.redis in
        let t' : Tracker R = record { redis = r; metrics = t.metrics ++ fault_metrics c } in
        fault_count-fault_loop (n + length (fault_alerts F draw sensor a ts n p c)) ps t' s
        ∙ get-decrement a p (fault_count s) t.redis

  pub count-recovery_loop :
      (a : String) (ps : List String) (r : R) (b q : String)
      → IsDistinct ps
      → d.get (recovery_loop a ps r) (operational_count b q) ≡ (
          if (a == b) && contains q ps
          then some (succ (or_zero (d.get r (operational_count b q))))
          else d.get r (operational_count b q))
  unfolding recovery_loop increment
  count-recovery_loop a [] r b q h = ground arith
  count-recovery_loop a (p ∷ ps) r b q h = ground (
    arith,
    count-recovery_loop a ps (increment a p r).0 b q h.1,
    laws.get-incr (operational_count a p) (operational_count b q) r,
    eq_iff p q,
    eq_iff a b,
  )

  pub fault_count-recovery_loop :
      (a : String) (ps : List String) (r : R) (s : String)
      → d.get (recovery_loop a ps r) (fault_count s) ≡ d.get r (fault_count s)
  unfolding recovery_loop increment
  fault_count-recovery_loop a [] r s = refl
  fault_count-recovery_loop a (p ∷ ps) r s =
      fault_count-recovery_loop a ps (increment a p r).0 s
      ∙ laws.get-incr (operational_count a p) (fault_count s) r
