-- ===== src/Simulator/Demos/Steps.antt =====
-- Readings one after another at the tracker of the rule engine, and what each kind of reading of the
-- third demonstration yields.
use flood_monitoring_and_man.Common.{
  ℕ, suc, ◌+◌, String, List, [], ◌∷◌, ◌++◌, Bool, true, false, ◌≡◌, refl, arith, string_eq, map,
  map-append, length, ap, sym, ◌∙◌,
}
use flood_monitoring_and_man.Common.Int.{ℤ}
use flood_monitoring_and_man.Common.Redis.{Redis, RedisLaws, key_eq}
use flood_monitoring_and_man.Wire.Parameters.{model_dump, present, as_param_dict}
use flood_monitoring_and_man.RuleEngine.Models.{Alert, Draw}
use flood_monitoring_and_man.RuleEngine.Redundancy.{Tracker, on_sensor_reading}
use flood_monitoring_and_man.RuleEngine.Redundancy.Counts.{pred_clamped}
use flood_monitoring_and_man.RuleEngine.Redundancy.Notices.{Notice, notice_of, notices}
use flood_monitoring_and_man.Simulator.Demos.{Planned, planned_level, district, sensor_a, sensor_b}
use flood_monitoring_and_man.Simulator.Demos.Seen.{
  level, IsSeen, react, react-healthy, react-first, react-again, swapped,
}

module _ {R : Type 0} ⦃d : Redis R⦄ {F : Type 0} (draw : ℕ → Draw) (clock : ℕ → String) where
  -- The readings of a plan, one after another, at the tracker: the i-th at the time `clock i`.
  unfoldable pub observe : ℕ → ℕ → List (Planned F) → Tracker R → Tracker R × List (Alert F)
  unfolding as_param_dict
  observe i n [] t = (t, [])
  observe i n (p ∷ ps) t =
      let (t', alerts) =
        on_sensor_reading F draw n p.sensor_id p.area_id
          (map (λ m. m.0) (as_param_dict p.measurements)) p.status (clock i) t in
      let (t'', rest) = observe (suc i) (n + length alerts) ps t' in (t'', alerts ++ rest)

length-map : {A B : Type 0} (g : A → B) (xs : List A) → length (map g xs) ≡ length xs
length-map g [] = refl
length-map g (x ∷ xs) = ap suc (length-map g xs)

module _ {R : Type 0} ⦃d : Redis R⦄ (laws : RedisLaws R) {F : Type 0} (tenths : ℕ → F)
    (draw : ℕ → Draw) (clock : ℕ → String) where
  -- What is left behind, and what was announced.
  abbrev pub Yields : (Tracker R → Type 0) → List Notice → Tracker R × List (Alert F) → Type 0
  Yields P ns (t, alerts) = P t × (map notice_of alerts ≡ ns)

  observe-step :
      (P Q : Tracker R → Type 0) (ns ms : List Notice) (i n v : ℕ) (s : String) (up : Bool)
      (ps : List (Planned F)) (t : Tracker R)
      → Yields P ns (react laws F draw n s up (clock i) t)
      → ((t' : Tracker R) → P t' → Yields Q ms (observe draw clock (suc i) (n + length ns) ps t'))
      → Yields Q (ns ++ ms) (observe draw clock i n (planned_level tenths s v up ∷ ps) t)
  unfolding observe as_param_dict model_dump present
  observe-step P Q ns ms i n v s up ps t first later =
      let (t', alerts) = react laws F draw n s up (clock i) t in
      let many : length ns ≡ length alerts =
        ap length (sym first.1) ∙ length-map notice_of alerts in
      let rest : Yields Q ms (observe draw clock (suc i) (n + length alerts) ps t') =
        rw⁻¹ many (later t' first.0) in
      (
        rest.0,
        map-append notice_of alerts (observe draw clock (suc i) (n + length alerts) ps t').1
            ∙ ap (λ l. l ++ map notice_of (observe draw clock (suc i) (n + length alerts) ps t').1)
                first.1
            ∙ ap (λ l. ns ++ l) rest.1,
      )

  quiet-step :
      (P Q : Tracker R → Type 0) (ms : List Notice) (i n v : ℕ) (s : String) (up : Bool)
      (ps : List (Planned F)) (t : Tracker R)
      → Yields P [] (react laws F draw n s up (clock i) t)
      → ((t' : Tracker R) → P t' → Yields Q ms (observe draw clock (suc i) n ps t'))
      → Yields Q ms (observe draw clock i n (planned_level tenths s v up ∷ ps) t)
  quiet-step P Q ms i n v s up ps t quiet later =
      let same : n + 0 ≡ n = omega arith in
      observe-step P Q [] ms i n v s up ps t quiet (λ t' h. rw same (later t' h))

  -- A and B in the district, with their faults and the count.
  abbrev pub State : ℕ → ℕ → ℤ → Tracker R → Type 0
  State k l c t = IsSeen sensor_a sensor_b k l c t

  module _ (Q : Tracker R → Type 0) (ms : List Notice) (c : ℤ) where
    pub healthy_a :
        (i n v l : ℕ) (ps : List (Planned F)) (t : Tracker R)
        → State 0 l c t
        → ((t' : Tracker R) → State 0 l c t' → Yields Q ms (observe draw clock (suc i) n ps t'))
        → Yields Q ms (observe draw clock i n (planned_level tenths sensor_a v true ∷ ps) t)
    healthy_a i n v l ps t seen later =
        quiet-step (State 0 l c) Q ms i n v sensor_a true ps t
          (rw (react-healthy laws F draw n sensor_a (clock i) t seen.faults) (seen, refl)) later

    pub healthy_b :
        (i n v k : ℕ) (ps : List (Planned F)) (t : Tracker R)
        → State k 0 c t
        → ((t' : Tracker R) → State k 0 c t' → Yields Q ms (observe draw clock (suc i) n ps t'))
        → Yields Q ms (observe draw clock i n (planned_level tenths sensor_b v true ∷ ps) t)
    healthy_b i n v k ps t seen later =
        quiet-step (State k 0 c) Q ms i n v sensor_b true ps t
          (rw (react-healthy laws F draw n sensor_b (clock i) t seen.other_faults) (seen, refl))
          later

    pub again_a :
        (i n v k l : ℕ) (ps : List (Planned F)) (t : Tracker R)
        → State (suc k) l c t
        → ((t' : Tracker R)
            → State (suc (suc k)) l c t'
            → Yields Q ms (observe draw clock (suc i) n ps t'))
        → Yields Q ms (observe draw clock i n (planned_level tenths sensor_a v false ∷ ps) t)
    again_a i n v k l ps t seen later =
        let (next, silent) =
          react-again laws F draw n sensor_a sensor_b k l c (clock i) t refl seen in
        quiet-step (State (suc (suc k)) l c) Q ms i n v sensor_a false ps t
          (next, ap (map notice_of) silent) later

    pub again_b :
        (i n v k l : ℕ) (ps : List (Planned F)) (t : Tracker R)
        → State k (suc l) c t
        → ((t' : Tracker R)
            → State k (suc (suc l)) c t'
            → Yields Q ms (observe draw clock (suc i) n ps t'))
        → Yields Q ms (observe draw clock i n (planned_level tenths sensor_b v false ∷ ps) t)
    again_b i n v k l ps t seen later =
        let (next, silent) =
          react-again laws F draw n sensor_b sensor_a l k c (clock i) t refl
            (swapped sensor_a sensor_b k (suc l) c t seen) in
        quiet-step (State k (suc (suc l)) c) Q ms i n v sensor_b false ps t
          (swapped sensor_b sensor_a (suc (suc l)) k c _ next, ap (map notice_of) silent) later

    -- The notices of the first fault of a sensor.
    abbrev pub announced : String → ℕ → ℕ → List Notice
    announced s i n = notices draw s district (clock i) (λ p. c) n (level ∷ [])

    pub first_a :
        (i n v l : ℕ) (ps : List (Planned F)) (t : Tracker R)
        → State 0 l c t
        → ((t' : Tracker R)
            → State 1 l (pred_clamped c) t'
            → Yields Q ms (observe draw clock (suc i) (n + length (announced sensor_a i n)) ps t'))
        → Yields Q
            (announced sensor_a i n ++ ms)
            (observe draw clock i n (planned_level tenths sensor_a v false ∷ ps) t)
    first_a i n v l ps t seen later =
        observe-step (State 1 l (pred_clamped c)) Q (announced sensor_a i n) ms i n v sensor_a false
          ps t (react-first laws F draw n sensor_a sensor_b l c (clock i) t refl seen) later

    pub first_b :
        (i n v k : ℕ) (ps : List (Planned F)) (t : Tracker R)
        → State k 0 c t
        → ((t' : Tracker R)
            → State k 1 (pred_clamped c) t'
            → Yields Q ms (observe draw clock (suc i) (n + length (announced sensor_b i n)) ps t'))
        → Yields Q
            (announced sensor_b i n ++ ms)
            (observe draw clock i n (planned_level tenths sensor_b v false ∷ ps) t)
    first_b i n v k ps t seen later =
        let (next, told) =
          react-first laws F draw n sensor_b sensor_a k c (clock i) t refl
            (swapped sensor_a sensor_b k 0 c t seen) in
        observe-step (State k 1 (pred_clamped c)) Q (announced sensor_b i n) ms i n v sensor_b false
          ps t (swapped sensor_b sensor_a 1 k (pred_clamped c) _ next, told) later
