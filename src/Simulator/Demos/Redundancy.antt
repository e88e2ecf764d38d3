-- ===== src/Simulator/Demos/Redundancy.antt =====
-- What the tracker of the rule engine makes of the third demonstration.
use flood_monitoring_and_man.Common.{
  ℕ, suc, ◌+◌, String, List, [], ◌∷◌, ◌++◌, true, false, ◌≡◌, refl, string_eq, map, length,
  append-nil, ap, ◌∙◌,
}
use flood_monitoring_and_man.Common.Int.{ℤ}
use flood_monitoring_and_man.Common.Redis.{Redis, RedisLaws, key_eq}
use flood_monitoring_and_man.RuleEngine.Models.{Draw}
use flood_monitoring_and_man.RuleEngine.Redundancy.{Tracker}
use flood_monitoring_and_man.RuleEngine.Redundancy.Counts.{pred_clamped}
use flood_monitoring_and_man.RuleEngine.Redundancy.Notices.{Notice, notice_of, notices}
use flood_monitoring_and_man.Simulator.Demos.{
  Planned, phase, planned_level, case_3, district, sensor_a, sensor_b,
}
use flood_monitoring_and_man.Simulator.Demos.Seen.{level, IsSeen}
use flood_monitoring_and_man.Simulator.Demos.Steps.{
  observe, Yields, State, healthy_a, healthy_b, again_a, again_b, first_a, first_b,
}

module _ {R : Type 0} ⦃d : Redis R⦄ (laws : RedisLaws R) {F : Type 0} (tenths : ℕ → F)
    (draw : ℕ → Draw) (clock : ℕ → String) where
  module _ (Q : Tracker R → Type 0) (ms : List Notice) (c : ℤ) where
    -- Each phase after its first two readings, by what is left of it.
    healthy_phase :
        (i n : ℕ) (ps : List (Planned F)) (t : Tracker R)
        → State laws tenths draw clock 0 0 c t
        → ((t' : Tracker R)
            → State laws tenths draw clock 0 0 c t'
            → Yields laws tenths draw clock Q ms (observe draw clock (suc (suc i)) n ps t'))
        → Yields laws tenths draw clock Q ms (
            observe draw clock i n
              (planned_level tenths sensor_a 15 true ∷ planned_level tenths sensor_b 15 true ∷ ps)
              t)
    healthy_phase i n ps t seen later =
        healthy_a laws tenths draw clock Q ms c i n 15 0 _ t seen
          (λ t' h. healthy_b laws tenths draw clock Q ms c (suc i) n 15 0 ps t' h later)

    failing_phase :
        (i n k : ℕ) (ps : List (Planned F)) (t : Tracker R)
        → State laws tenths draw clock (suc k) 0 c t
        → ((t' : Tracker R)
            → State laws tenths draw clock (suc (suc k)) 0 c t'
            → Yields laws tenths draw clock Q ms (observe draw clock (suc (suc i)) n ps t'))
        → Yields laws tenths draw clock Q ms (
            observe draw clock i n
              (planned_level tenths sensor_a 15 false ∷ planned_level tenths sensor_b 16 true ∷ ps)
              t)
    failing_phase i n k ps t seen later =
        again_a laws tenths draw clock Q ms c i n 15 k 0 _ t seen
          (λ t' h. healthy_b laws tenths draw clock Q ms c (suc i) n 16 (suc (suc k)) ps t' h later)

    failed_phase :
        (i n k l : ℕ) (ps : List (Planned F)) (t : Tracker R)
        → State laws tenths draw clock (suc k) (suc l) c t
        → ((t' : Tracker R)
            → State laws tenths draw clock (suc (suc k)) (suc (suc l)) c t'
            → Yields laws tenths draw clock Q ms (observe draw clock (suc (suc i)) n ps t'))
        → Yields laws tenths draw clock Q ms (
            observe draw clock i n
              (planned_level tenths sensor_a 15 false ∷ planned_level tenths sensor_b 15 false ∷ ps)
              t)
    failed_phase i n k l ps t seen later =
        again_a laws tenths draw clock Q ms c i n 15 k (suc l) _ t seen
          (λ t' h. again_b laws tenths draw clock Q ms c (suc i) n 15 (suc (suc k)) l ps t' h later)

  observe-end :
      (P : Tracker R → Type 0) (i n : ℕ) (t : Tracker R)
      → P t
      → Yields laws tenths draw clock P [] (observe draw clock i n [] t)
  unfolding observe
  observe-end P i n t h = (h, refl)

  both_failed :
      (n : ℕ) (c : ℤ) (t : Tracker R)
      → State laws tenths draw clock 5 1 c t
      → Yields laws tenths draw clock
          (State laws tenths draw clock 8 4 c)
          []
          (observe draw clock 16 n (phase tenths 3 15 15 false false) t)
  both_failed n c t seen =
      let Q : Tracker R → Type 0 = State laws tenths draw clock 8 4 c in
      failed_phase Q [] c 16 n 4 0 _ t seen (λ t1 h1.
        failed_phase Q [] c 18 n 5 1 _ t1 h1
          (λ t2 h2. failed_phase Q [] c 20 n 6 2 [] t2 h2 (λ t3 h3. observe-end Q 22 n t3 h3)))

  -- The last two phases, from the second reading of the first failure of A on.
  one_failed :
      (n : ℕ) (c : ℤ) (t : Tracker R)
      → State laws tenths draw clock 1 0 c t
      → Yields laws tenths draw clock
          (State laws tenths draw clock 8 4 (pred_clamped c))
          (notices draw sensor_b district (clock 15) (λ p. c) n (level ∷ []) ++ [])
          (observe draw clock 7 n
            (planned_level tenths sensor_b 16 true ∷ phase tenths 3 15 16 false true
              ++ phase tenths 4 15 15 false false)
            t)
  one_failed n c t seen =
      let Q : Tracker R → Type 0 = State laws tenths draw clock 8 4 (pred_clamped c) in
      let ms = notices draw sensor_b district (clock 15) (λ p. c) n (level ∷ []) ++ [] in
      healthy_b laws tenths draw clock Q ms c 7 n 16 1 _ t seen (λ t1 h1.
        failing_phase Q ms c 8 n 0 _ t1 h1 (λ t2 h2. failing_phase Q ms c 10 n 1 _ t2 h2 (λ t3 h3.
          failing_phase Q ms c 12 n 2 _ t3 h3 (λ t4 h4.
            again_a laws tenths draw clock Q ms c 14 n 15 3 0 _ t4 h4 (λ t5 h5.
              first_b laws tenths draw clock Q [] c 15 n 15 5 _ t5 h5
                (λ t6 h6. both_failed _ _ t6 h6))))))

  -- The third demonstration, at a tracker that has no fault of its two sensors on record and any count
  -- c of the water level in their district: it announces the first failure of A as the count c calls
  -- for, then the first failure of B as the count one below c and not below 0 calls for, and nothing
  -- else; at its end eight faults of A and four of B are on record, and the count is two below c and
  -- not below 0. By `notices` a count of 1 or less calls for a malfunction of high severity and a
  -- priority alert, and another for a malfunction of low severity.
  pub observe-case_3 :
      (n : ℕ) (c : ℤ) (t : Tracker R)
      → IsSeen sensor_a sensor_b 0 0 c t
      → let first = notices draw sensor_a district (clock 6) (λ p. c) n (level ∷ []) in
        let second =
          notices draw sensor_b district
            (clock 15)
            (λ p. pred_clamped c)
            (n + length first)
            (level ∷ []) in
        let (t', alerts) = observe draw clock 0 n (case_3 tenths) t in
        IsSeen sensor_a sensor_b 8 4 (pred_clamped (pred_clamped c)) t'
        × (map notice_of alerts ≡ first ++ second)
  unfolding case_3
  observe-case_3 n c t seen =
      let once = pred_clamped c in
      let Q : Tracker R → Type 0 = State laws tenths draw clock 8 4 (pred_clamped once) in
      let first = notices draw sensor_a district (clock 6) (λ p. c) n (level ∷ []) in
      let m = n + length first in
      let second = notices draw sensor_b district (clock 15) (λ p. once) m (level ∷ []) in
      let all = first ++ (second ++ []) in
      let (last, told) : Yields laws tenths draw clock Q all
          (observe draw clock 0 n (case_3 tenths) t) =
        healthy_phase Q all c 0 n _ t seen (λ t1 h1. healthy_phase Q all c 2 n _ t1 h1 (λ t2 h2.
          healthy_phase Q all c 4 n _ t2 h2 (λ t3 h3.
            first_a laws tenths draw clock Q (second ++ []) c 6 n 15 0 _ t3 h3
              (λ t4 h4. one_failed m once t4 h4)))) in
      (last, told ∙ ap (λ l. first ++ l) (append-nil second))
