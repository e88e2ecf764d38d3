-- ===== src/Simulator/Params.antt =====
-- `PARAM_META` of services/sensor-simulator/src/sensor_simulator/sensor.py, and Python's `min` and `max`
-- of two floats.
use flood_monitoring_and_man.Common.{
  ℕ, List, [], ◌∷◌, Bool, true, false, ◌&&◌, ◌≡◌, ◌↔◌, arith, Eq, if◌then◌else◌, ltb,
}
use flood_monitoring_and_man.Common.Float.{Float, FloatLaws}

-- The keys of `PARAM_META`, in its order; for another name `Sensor.__init__` raises a KeyError.
pub data Param : Type 0 where
  water_level_m river_flow_velocity_m_s rainfall_mm_h : Param
  soil_saturation_pct wind_speed_m_s wind_direction_deg : Param

abbrev pub all_params : List Param
all_params =
    water_level_m ∷ river_flow_velocity_m_s ∷ rainfall_mm_h ∷ soil_saturation_pct ∷ wind_speed_m_s
    ∷ wind_direction_deg ∷ []

abbrev beq_param : Param → Param → Bool
beq_param water_level_m water_level_m = true
beq_param river_flow_velocity_m_s river_flow_velocity_m_s = true
beq_param rainfall_mm_h rainfall_mm_h = true
beq_param soil_saturation_pct soil_saturation_pct = true
beq_param wind_speed_m_s wind_speed_m_s = true
beq_param wind_direction_deg wind_direction_deg = true
beq_param _ _ = false

pub beq_param_iff : (p q : Param) → (beq_param p q ≡ true) ↔ (p ≡ q)
beq_param_iff p q = ground arith

instance abbrev pub param_eq : Eq Param
param_eq = record { beq = beq_param; beq_iff = beq_param_iff }

module _ {F : Type 0} ⦃f : Float F⦄ where
  abbrev pub lo : Param → F
  lo p = f.num 0

  abbrev pub hi : Param → F
  hi water_level_m = f.num 50
  hi river_flow_velocity_m_s = f.num 20
  hi rainfall_mm_h = f.num 500
  hi soil_saturation_pct = f.num 100
  hi wind_speed_m_s = f.num 100
  hi wind_direction_deg = f.max_degrees

  -- `min(a, b)` and `max(a, b)`: the first, unless the second is smaller or greater.
  abbrev pub min_of : F → F → F
  min_of a b = if f.lt b a then b else a

  abbrev pub max_of : F → F → F
  max_of a b = if f.lt a b then b else a

  abbrev pub clamp : Param → F → F
  clamp p v = max_of (lo p) (min_of (hi p) v)

  abbrev pub in_range : Param → F → Bool
  in_range p v = f.le (lo p) v && f.le v (hi p)

-- The order of the numerals, and where 359.99 lies among them.
pub record LiteralLaws (F : Type 0) ⦃f : Float F⦄ : Type 0 where
  pub lt-num : (a b : ℕ) → f.lt (f.num a) (f.num b) ≡ ltb a b
  pub zero-lt-max_degrees : f.lt (f.num 0) f.max_degrees ≡ true
  pub max_degrees-lt-full : f.lt f.max_degrees (f.num 360) ≡ true
  pub le-of-lt : (a b : F) → f.lt a b ≡ true → f.le a b ≡ true

module _ {F : Type 0} ⦃f : Float F⦄ (laws : FloatLaws F) (literals : LiteralLaws F) where
  lo-le-hi : (p : Param) → f.le (lo p) (hi p) ≡ true
  lo-le-hi water_level_m =
      ground (arith, literals.lt-num 0 50, literals.le-of-lt (f.num 0) (f.num 50))
  lo-le-hi river_flow_velocity_m_s =
      ground (arith, literals.lt-num 0 20, literals.le-of-lt (f.num 0) (f.num 20))
  lo-le-hi rainfall_mm_h =
      ground (arith, literals.lt-num 0 500, literals.le-of-lt (f.num 0) (f.num 500))
  lo-le-hi soil_saturation_pct =
      ground (arith, literals.lt-num 0 100, literals.le-of-lt (f.num 0) (f.num 100))
  lo-le-hi wind_speed_m_s =
      ground (arith, literals.lt-num 0 100, literals.le-of-lt (f.num 0) (f.num 100))
  lo-le-hi wind_direction_deg =
      ground (arith, literals.zero-lt-max_degrees, literals.le-of-lt (f.num 0) f.max_degrees)

  pub clamp-in_range : (p : Param) (v : F) → in_range p (clamp p v) ≡ true
  clamp-in_range p v = ground (
    arith,
    lo-le-hi p,
    laws.le_refl (lo p),
    laws.le_refl (hi p),
    literals.le-of-lt (lo p) v,
    literals.le-of-lt (lo p) (hi p),
    literals.le-of-lt v (hi p),
    laws.le-of-not-lt (lo p) v,
  )
