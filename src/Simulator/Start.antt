-- ===== src/Simulator/Start.antt =====
-- The sensors that `Simulator.start` of services/sensor-simulator/src/sensor_simulator/simulator.py
-- makes and runs. What the random generators give is an argument: the parameters of the i-th sensor and
-- its first values. The connection to the broker and the tasks are left out.
use flood_monitoring_and_man.Common.{
  ℕ, suc, ◌<◌, String, List, [], ◌∷◌, Option, none, some, true, ◌≡◌, refl, arith, All, length, ap,
  subst, Option-cases, inl, inr,
}
use flood_monitoring_and_man.Common.Float.{Float, FloatLaws}
use flood_monitoring_and_man.Simulator.Params.{Param, in_range, LiteralLaws}
use flood_monitoring_and_man.Simulator.Fleet.{
  Place, places, listed, places_from-listed, listed-length,
}
use flood_monitoring_and_man.Simulator.Sensor.{Sensor, Draws, new_sensor, rounds}
use flood_monitoring_and_man.Simulator.Sensor.Sent.{IsGoodRun, rounds-IsGoodRun_from_start}

pub record Settings (F : Type 0) : Type 0 where
  pub sim_sensor_count : ℕ
  pub sim_area_count : ℕ
  pub sim_nominal_interval_s : F
  pub sim_critical_interval_s : F
  pub sim_fault_probability : F
  pub sim_delta_filter_pct : F

-- `make_id` is `_make_id`.
module _ {F : Type 0} ⦃f : Float F⦄ (make_id : ℕ → String) (active_params : ℕ → List Param)
    (uniform : ℕ → Param → F) where
  -- The arguments of the constructor for a place of the fleet.
  abbrev pub config_of : Settings F → ℕ → Place → Sensor F
  config_of settings i p = record {
    sensor_id = make_id p.sensor;
    area_id = make_id p.area;
    active_params = active_params i;
    nominal_interval = settings.sim_nominal_interval_s;
    critical_interval = settings.sim_critical_interval_s;
    fault_probability = settings.sim_fault_probability;
    delta_filter_pct = settings.sim_delta_filter_pct;
    current = [];
    last_published = [];
    fault_cycles_remaining = 0;
  }

  abbrev pub append_sensor : Option (Sensor F) → Option (List (Sensor F)) → Option (List (Sensor F))
  append_sensor none rest = none
  append_sensor (some s) none = none
  append_sensor (some s) (some rest) = some (s ∷ rest)

  -- The loop, from the i-th place on; `none` is an exception, of the constructor or of the place.
  unfoldable pub sensors_from : Settings F → ℕ → List Place → Option (List (Sensor F))
  unfolding new_sensor
  sensors_from settings i [] = some []
  sensors_from settings i (p ∷ ps) =
      append_sensor (new_sensor (config_of settings i p) (uniform i))
        (sensors_from settings (suc i) ps)

  unfoldable pub start : Settings F → Option (List (Sensor F))
  unfolding sensors_from places
  start settings = elim (places settings.sim_sensor_count settings.sim_area_count) [
    | none ↦ none
    | some ps ↦ sensors_from settings 0 ps
  ]

module _ {F : Type 0} ⦃f : Float F⦄ where
  -- As many sensors as places, and each runs well.
  pub record IsStarted (n : ℕ) (ds : List (Draws F)) (result : Option (List (Sensor F)))
      : Type 0 where
    pub sensors : List (Sensor F)
    pub started : result ≡ some sensors
    pub number : length sensors ≡ n
    pub running : All (λ s. IsGoodRun s (rounds ds s)) sensors

module _ {F : Type 0} ⦃f : Float F⦄ (laws : FloatLaws F) (literals : LiteralLaws F)
    (make_id : ℕ → String) (active_params : ℕ → List Param) (uniform : ℕ → Param → F)
    (sampled : (i : ℕ) → (p : Param) × (ps : List Param) × (active_params i ≡ p ∷ ps))
    (drawn : (i : ℕ) (p : Param) → in_range p (uniform i p) ≡ true) where
  made :
      (config : Sensor F) (i : ℕ)
      → config.active_params ≡ active_params i
      → (s : Sensor F) × (new_sensor config (uniform i) ≡ some s)
  unfolding new_sensor
  made config i same =
      let (p, ps, full) = sampled i in
      elim (Option-cases (new_sensor config (uniform i))) [
        | inl failed ↦ absurd (ground (arith, failed, same, full))
        | inr (s, is) ↦ (s, is)
      ]

  sensors_from-IsStarted :
      (settings : Settings F) (ds : List (Draws F)) (i : ℕ) (ps : List Place)
      → IsStarted (length ps) ds (sensors_from make_id active_params uniform settings i ps)
  unfolding sensors_from
  sensors_from-IsStarted settings ds i [] = record {
    sensors = [];
    started = refl;
    number = refl;
    running = tt;
  }
  sensors_from-IsStarted settings ds i (p ∷ ps) =
      let config = config_of make_id active_params uniform settings i p in
      let (s, is) = made config i refl in
      let rest = sensors_from-IsStarted settings ds (suc i) ps in
      record {
        sensors = s ∷ rest.sensors;
        started = rw (is, rest.started) refl;
        number = ap suc rest.number;
        running = (
          rounds-IsGoodRun_from_start laws literals config s (uniform i) ds (drawn i) is,
          rest.running,
        );
      }

  -- Where at least one area is configured, and where each sensor is given a parameter and first values in
  -- the range of their parameters: the simulator makes as many sensors as are configured and none fails;
  -- and each of them runs any number of rounds without an exception, and every envelope that it tries to
  -- publish has its ids and is accepted unchanged by the validation of the ingestion gateway.
  pub start-IsStarted :
      (settings : Settings F) (ds : List (Draws F))
      → 0 < settings.sim_area_count
      → IsStarted settings.sim_sensor_count ds (start make_id active_params uniform settings)
  unfolding start places
  start-IsStarted settings ds positive =
      let n = settings.sim_sensor_count in
      let m = settings.sim_area_count in
      rw (start, places, places_from-listed n m 0 n positive)
        (subst
          (λ k.
            IsStarted k ds (sensors_from make_id active_params uniform settings 0 (listed n m 0 n)))
          (listed-length n m 0 n) (sensors_from-IsStarted settings ds 0 (listed n m 0 n)))
