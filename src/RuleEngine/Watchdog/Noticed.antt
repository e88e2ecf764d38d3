-- ===== src/RuleEngine/Watchdog/Noticed.antt =====
-- What the watchdog notices where the rule engine is the last to write the key of a sensor.
use flood_monitoring_and_man.Common.{
  ℕ, zero, suc, ◌+◌, ◌*◌, ◌≤◌, ◌<◌, String, List, ◌∷◌, Option, some, Bool, false, leb, ◌==◌,
  string_eq, ◌≡◌, refl, arith, Bool-cases, inl, inr,
}
use flood_monitoring_and_man.Common.Expiry.{Expiring, ExpiringLaws, at_time}
use flood_monitoring_and_man.Common.Float.{Float}
use flood_monitoring_and_man.Common.Redis.{Redis}
use flood_monitoring_and_man.Wire.Parameters.{model_dump, present}
use flood_monitoring_and_man.Wire.Validation.{TelemetryMessage}
use flood_monitoring_and_man.RuleEngine.Models.{Alert, AreaThreshold, Draw}
use flood_monitoring_and_man.RuleEngine.Consumer.{Engine, process_with, sensor_silence_timeout_s}
use flood_monitoring_and_man.RuleEngine.Watchdog.{names}
use flood_monitoring_and_man.RuleEngine.Watchdog.Timing.{found_at, find_silent-old}

-- The first of ever later instants that is after a deadline, and how much after it can be.
first_after :
    (fuel gap deadline start : ℕ) (s : ℕ → ℕ)
    → s 0 ≡ start
    → start ≤ deadline
    → deadline < start + fuel
    → ((k : ℕ) → (s k < s (suc k)) × (s (suc k) ≤ s k + gap))
    → (k : ℕ) × ((deadline < s k) × (s k ≤ deadline + gap))
first_after zero gap deadline start s at_start early enough steps =
    absurd (omega (arith, early, enough))
first_after (suc fuel) gap deadline start s at_start early enough steps =
    let step = steps 0 in
    elim (Bool-cases (leb (s 1) deadline)) [
      | inl still_early ↦
          let (k, found) =
            first_after fuel gap deadline (s 1) (λ k. s (suc k)) refl (ground (arith, still_early))
              (omega (arith, enough, step.0, at_start)) (λ k. steps (suc k)) in
          (suc k, found)
      | inr late ↦ (1, (ground (arith, late), omega (arith, step.1, at_start, early)))
    ]

module _ {F R H : Type 0} ⦃f : Float F⦄ ⦃d : Redis R⦄ (e : Expiring H (TelemetryMessage F))
    (draw : ℕ → Draw) (accepts : Alert F → Bool) where
  -- The hot state after the rule engine has processed a message at an instant.
  abbrev pub after_engine : ℕ → TelemetryMessage F → List (AreaThreshold F) → Engine F R H → H
  after_engine at msg thresholds g =
      (process_with ⦃s = at_time e at⦄ draw accepts msg thresholds g).hot

module _ {F R H : Type 0} ⦃f : Float F⦄ ⦃d : Redis R⦄ (e : Expiring H (TelemetryMessage F))
    (laws : ExpiringLaws e) (parse_time : String → Option ℕ) (draw : ℕ → Draw)
    (accepts : Alert F → Bool) where
  after_engine-get_at :
      (at t : ℕ) (msg : TelemetryMessage F) (thresholds : List (AreaThreshold F)) (g : Engine F R H)
      → at ≤ t
      → t < at + sensor_silence_timeout_s * 2
      → e.get_at t (after_engine e draw accepts at msg thresholds g) msg.sensor_id ≡ some msg
  unfolding process_with
  after_engine-get_at at t msg thresholds g before in_time =
      laws.get-set_at at t msg.sensor_id msg (sensor_silence_timeout_s * 2) g.hot before in_time

  -- Where the rule engine is the last to write the key of a sensor, after the reading came in and within
  -- the timeout, and where scans start before the reading counts as silent and follow one another with
  -- a gap below the timeout, one of them finds the sensor silent, with the area, the parameters and the
  -- time of the reading, at most one gap after the timeout.
  pub found_at-after_engine :
      (at ingested gap : ℕ) (msg : TelemetryMessage F) (thresholds : List (AreaThreshold F))
      (g : Engine F R H) (p : String) (ps : List String) (s : ℕ → ℕ)
      → (msg.ingested_at == "") ≡ false
      → (msg.sensor_id == "") ≡ false
      → (msg.area_id == "") ≡ false
      → parse_time msg.ingested_at ≡ some ingested
      → names (present (model_dump msg.measurements)) ≡ p ∷ ps
      → ingested ≤ at
      → at ≤ ingested + sensor_silence_timeout_s
      → s 0 ≤ ingested + sensor_silence_timeout_s
      → gap < sensor_silence_timeout_s
      → ((k : ℕ) → (s k < s (suc k)) × (s (suc k) ≤ s k + gap))
      → (k : ℕ) × ((s k ≤ ingested + sensor_silence_timeout_s + gap)
          × (found_at e parse_time
                (s k)
                (after_engine e draw accepts at msg thresholds g)
                msg.sensor_id
              ≡ some (record {
                sensor = msg.sensor_id;
                area = msg.area_id;
                params = p ∷ ps;
                at = msg.ingested_at;
              })))
  found_at-after_engine at ingested gap msg thresholds g p ps s stamped named placed parsed measured
        after_ingestion soon started often steps =
      let deadline = ingested + sensor_silence_timeout_s in
      let (k, (late, close)) =
        first_after (suc deadline) gap deadline (s 0) s refl started (omega arith) steps in
      (
        k,
        (
          close,
          rw
              (after_engine-get_at at (s k) msg thresholds g (omega (arith, late, soon))
                (omega (arith, close, often, after_ingestion)))
              (find_silent-old parse_time sensor_silence_timeout_s msg (s k) ingested p ps stamped
                named placed parsed measured (omega (arith, late))),
        ),
      )
