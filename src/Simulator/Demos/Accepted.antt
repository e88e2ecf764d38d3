-- ===== src/Simulator/Demos/Accepted.antt =====
-- The gateway accepts what the demonstrations publish.
use flood_monitoring_and_man.Common.{
  ℕ, zero, suc, ◌≤◌, String, List, [], ◌∷◌, ◌++◌, some, Bool, true, false, ◌≡◌, refl, arith, ◌∙◌,
  if◌then◌else◌, All, All-append,
}
use flood_monitoring_and_man.Common.Float.{Float, FloatLaws}
use flood_monitoring_and_man.Wire.Parameters.{model_dump}
use flood_monitoring_and_man.Wire.Validation.{
  TelemetryEnvelope, fields_valid, all_none, validate_envelope, dump_envelope,
}
use flood_monitoring_and_man.Wire.RoundTrip.{validate_envelope-dump}
use flood_monitoring_and_man.Simulator.Params.{min_of, LiteralLaws}
use flood_monitoring_and_man.Simulator.Demos.{
  Planned, repeat, make_envelope, publish_plan, case_1_from, case_1, sensor_task_from, sensor_task,
  case_3, planned_level, phase, sensor_a, sensor_b,
}

-- The literals with one decimal, and what addition and multiplication keep.
pub record DecimalLaws (F : Type 0) ⦃f : Float F⦄ (tenths : ℕ → F) : Type 0 where
  pub nonneg-tenths : (n : ℕ) → f.le (f.num 0) (tenths n) ≡ true
  pub tenths-below : (n : ℕ) → f.lt (tenths n) (f.num (suc n)) ≡ true
  pub nonneg-num : (n : ℕ) → f.le (f.num 0) (f.num n) ≡ true
  pub nonneg-add :
      (a b : F)
      → f.le (f.num 0) a ≡ true
      → f.le (f.num 0) b ≡ true
      → f.le (f.num 0) (f.add a b) ≡ true
  pub nonneg-mul :
      (a b : F)
      → f.le (f.num 0) a ≡ true
      → f.le (f.num 0) b ≡ true
      → f.le (f.num 0) (f.mul a b) ≡ true

module _ {F : Type 0} ⦃f : Float F⦄ where
  -- The values are in range.
  abbrev IsFine : Planned F → Type 0
  IsFine p = (fields_valid p.measurements ≡ true) × (all_none (model_dump p.measurements) ≡ false)

  -- A published envelope has the ids and the values of the plan, and the gateway accepts it as it is.
  abbrev pub IsAsPlanned : Planned F → TelemetryEnvelope F → Type 0
  IsAsPlanned p e =
      (validate_envelope (dump_envelope e) ≡ some e)
      × (e.sensor_id ≡ p.sensor_id)
      × (e.area_id ≡ p.area_id)
      × (e.measurements ≡ p.measurements)
      × (e.status ≡ p.status)
      × (e.mode ≡ p.mode)

  abbrev pub AreAsPlanned : List (Planned F) → List (TelemetryEnvelope F) → Type 0
  AreAsPlanned [] [] = Unit
  AreAsPlanned (p ∷ ps) (e ∷ es) = IsAsPlanned p e × AreAsPlanned ps es
  AreAsPlanned [] (e ∷ es) = ⊥
  AreAsPlanned (p ∷ ps) [] = ⊥

  -- What is published before the first call that raises, and whether none does.
  unfoldable pub before_failure :
      (ℕ → Bool) → ℕ → List (TelemetryEnvelope F) → List (TelemetryEnvelope F) × Bool
  before_failure sent i [] = ([], true)
  before_failure sent i (e ∷ es) =
      let (rest, done) = before_failure sent (suc i) es in
      if sent i then (e ∷ rest, done) else ([], false)

  before_failure-none :
      (i : ℕ) (es : List (TelemetryEnvelope F)) → before_failure (λ j. true) i es ≡ (es, true)
  unfolding before_failure
  before_failure-none i [] = refl
  before_failure-none i (e ∷ es) = rw (before_failure-none (suc i) es) refl

  -- The case goes on to the first call of the broker that raises, and to its end if none does.
  pub record IsPublished (clock : ℕ → String) (i : ℕ) (plan : List (Planned F)) : Type 0 where
    pub envelopes : List (TelemetryEnvelope F)
    pub as_planned : AreAsPlanned plan envelopes
    pub up_to_failure :
        (sent : ℕ → Bool) → publish_plan clock sent i plan ≡ before_failure sent i envelopes
    pub complete : publish_plan clock (λ j. true) i plan ≡ (envelopes, true)

  publish_plan-before_failure :
      (clock : ℕ → String) (i : ℕ) (plan : List (Planned F))
      → All IsFine plan
      → (es : List (TelemetryEnvelope F)) × AreAsPlanned plan es
        × ((sent : ℕ → Bool) → publish_plan clock sent i plan ≡ before_failure sent i es)
  unfolding publish_plan make_envelope before_failure
  publish_plan-before_failure clock i [] fine = ([], tt, λ sent. refl)
  publish_plan-before_failure clock i (p ∷ ps) fine =
      let rest = publish_plan-before_failure clock (suc i) ps fine.1 in
      let e : TelemetryEnvelope F = record {
        sensor_id = p.sensor_id;
        area_id = p.area_id;
        ts = clock i;
        status = p.status;
        mode = p.mode;
        measurements = p.measurements;
      } in
      (
        e ∷ rest.0,
        ((validate_envelope-dump e fine.0.0 fine.0.1, refl, refl, refl, refl, refl), rest.1),
        λ sent. ground (arith, fine.0.0, rest.2 sent),
      )

  publish_plan-IsPublished :
      (clock : ℕ → String) (i : ℕ) (plan : List (Planned F))
      → All IsFine plan
      → IsPublished clock i plan
  publish_plan-IsPublished clock i plan fine =
      let (es, planned, until) = publish_plan-before_failure clock i plan fine in
      record {
        envelopes = es;
        as_planned = planned;
        up_to_failure = until;
        complete = until (λ j. true) ∙ before_failure-none i es;
      }

module _ {F : Type 0} ⦃f : Float F⦄ (laws : FloatLaws F) (literals : LiteralLaws F) (tenths : ℕ → F)
    (decimals : DecimalLaws F tenths) where
  -- What is added and cut off at a literal stays between 0 and any greater literal.
  ramp-in_range :
      (top hi : ℕ) (x step : F)
      → suc top ≤ hi
      → f.le (f.num 0) x ≡ true
      → f.le (f.num 0) step ≡ true
      → (f.le (f.num 0) (min_of (f.num top) (f.add x step)) ≡ true)
        × (f.le (min_of (f.num top) (f.add x step)) (f.num hi) ≡ true)
  ramp-in_range top hi x step above nonneg up = ground (
    arith,
    decimals.nonneg-num top,
    decimals.nonneg-add x step nonneg up,
    literals.lt-num top hi,
    literals.le-of-lt (f.num top) (f.num hi),
    literals.le-of-lt (f.add x step) (f.num hi),
    laws.lt_trans (f.add x step) (f.num top) (f.num hi),
  )

  case_1_from-IsFine :
      (n : ℕ) (level : F) → f.le (f.num 0) level ≡ true → All IsFine (case_1_from tenths n level)
  unfolding case_1_from fields_valid all_none model_dump
  case_1_from-IsFine zero level nonneg = tt
  case_1_from-IsFine (suc n) level nonneg =
      let ok =
        ramp-in_range 6 50 level (tenths 4) (omega arith) nonneg (decimals.nonneg-tenths 4) in
      (
        (ground (arith, ok.0, ok.1), refl),
        case_1_from-IsFine n (min_of (f.num 6) (f.add level (tenths 4))) ok.0,
      )

  sensor_task_from-IsFine :
      (sensor area : String) (n : ℕ) (rain : F)
      → f.le (f.num 0) rain ≡ true
      → All IsFine (sensor_task_from sensor area n rain)
  unfolding sensor_task_from fields_valid all_none model_dump
  sensor_task_from-IsFine sensor area zero rain nonneg = tt
  sensor_task_from-IsFine sensor area (suc n) rain nonneg =
      let ok = ramp-in_range 60 500 rain (f.num 6) (omega arith) nonneg (decimals.nonneg-num 6) in
      (
        (ground (arith, ok.0, ok.1), refl),
        sensor_task_from-IsFine sensor area n (min_of (f.num 60) (f.add rain (f.num 6))) ok.0,
      )

  sensor_task-IsFine :
      (sensor area : String) (idx : ℕ) → All IsFine (sensor_task {F = F} sensor area idx)
  unfolding sensor_task
  sensor_task-IsFine sensor area idx = sensor_task_from-IsFine sensor area 10 _ (
      decimals.nonneg-add _ _ (decimals.nonneg-num 5)
        (decimals.nonneg-mul _ _ (decimals.nonneg-num idx) (decimals.nonneg-num 2)))

  planned_level-IsFine :
      (sensor : String) (level : ℕ) (status : Bool)
      → suc level ≤ 49
      → IsFine (planned_level tenths sensor level status)
  unfolding fields_valid all_none model_dump
  planned_level-IsFine sensor level status low = (
    ground (
      arith,
      decimals.nonneg-tenths level,
      decimals.tenths-below level,
      literals.lt-num (suc level) 50,
      literals.le-of-lt (tenths level) (f.num 50),
      laws.lt_trans (tenths level) (f.num (suc level)) (f.num 50),
    ),
    refl,
  )

  All-repeat : (n : ℕ) (xs : List (Planned F)) → All IsFine xs → All IsFine (repeat n xs)
  All-repeat zero xs h = tt
  All-repeat (suc n) xs h = All-append (IsFine {F = F}) xs (repeat n xs) h (All-repeat n xs h)

  phase-IsFine :
      (n a b : ℕ) (up_a up_b : Bool)
      → suc a ≤ 49
      → suc b ≤ 49
      → All IsFine (phase tenths n a b up_a up_b)
  phase-IsFine n a b up_a up_b low_a low_b =
      All-repeat n
        (planned_level tenths sensor_a a up_a ∷ planned_level tenths sensor_b b up_b ∷ [])
        (
          planned_level-IsFine sensor_a a up_a low_a,
          (planned_level-IsFine sensor_b b up_b low_b, tt),
        )

  case_3-IsFine : All IsFine (case_3 tenths)
  unfolding case_3
  case_3-IsFine =
      All-append (IsFine {F = F}) (phase tenths 3 15 15 true true)
        (phase tenths 4 15 16 false true ++ phase tenths 4 15 15 false false)
        (phase-IsFine 3 15 15 true true (omega arith) (omega arith))
        (All-append (IsFine {F = F}) (phase tenths 4 15 16 false true)
          (phase tenths 4 15 15 false false)
          (phase-IsFine 4 15 16 false true (omega arith) (omega arith))
          (phase-IsFine 4 15 15 false false (omega arith) (omega arith)))

  -- Whatever the clock says, each of the three demonstrations, which are the rising water of the first,
  -- the storm of the second at each of its sensors, and the failures of the third, publishes, once it is
  -- connected, what it plans up to the first message for which the client raises, and all of it without an
  -- exception if it raises for none; and the validation of the gateway accepts every envelope as it is, with the ids, the values, the
  -- status and the mode that were planned.
  pub cases-IsPublished :
      (clock : ℕ → String) (sensor area : String) (idx : ℕ)
      → IsPublished clock 0 (case_1 tenths)
        × IsPublished clock 0 (sensor_task {F = F} sensor area idx)
        × IsPublished clock 0 (case_3 tenths)
  unfolding case_1
  cases-IsPublished clock sensor area idx = (
    publish_plan-IsPublished clock 0 (case_1_from tenths 10 (f.num 1))
        (case_1_from-IsFine 10 (f.num 1) (decimals.nonneg-num 1)),
    publish_plan-IsPublished clock 0 (sensor_task {F = F} sensor area idx)
        (sensor_task-IsFine sensor area idx),
    publish_plan-IsPublished clock 0 (case_3 tenths) case_3-IsFine,
  )
