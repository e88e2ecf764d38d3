-- ===== src/Simulator/Sensor/Measured.antt =====
-- The measurements of a walk, as the fields of an envelope.
use flood_monitoring_and_man.Common.{ℕ, true, false, ◌≡◌, refl, arith, Option-cases, inl, inr}
use flood_monitoring_and_man.Common.Dict.{lookup}
use flood_monitoring_and_man.Common.Float.{Float, FloatLaws}
use flood_monitoring_and_man.Wire.Parameters.{model_dump}
use flood_monitoring_and_man.Wire.Validation.{fields_valid, all_none, in_closed, in_half_open}
use flood_monitoring_and_man.Simulator.Params.{
  Param, param_eq, water_level_m, river_flow_velocity_m_s, rainfall_mm_h, soil_saturation_pct,
  wind_speed_m_s, wind_direction_deg, hi, LiteralLaws,
}
use flood_monitoring_and_man.Simulator.Sensor.{Readings, measurements_of}
use flood_monitoring_and_man.Simulator.Sensor.Bounds.{IsInRange, has}

module _ {F : Type 0} ⦃f : Float F⦄ where
  in_closed-lookup :
      (p : Param) (n : ℕ) (m : Readings F)
      → hi {F = F} p ≡ f.num n
      → IsInRange m
      → in_closed n (lookup p m) ≡ true
  unfolding IsInRange
  in_closed-lookup p n m top h = elim (Option-cases (lookup p m)) [
    | inl absent ↦ ground (arith, absent)
    | inr (v, found) ↦ ground (arith, found, h p v found, top)
  ]

  in_half_open-lookup :
      (laws : FloatLaws F) (literals : LiteralLaws F) (m : Readings F)
      → IsInRange m
      → in_half_open 360 (lookup wind_direction_deg m) ≡ true
  unfolding IsInRange
  in_half_open-lookup laws literals m h = elim (Option-cases (lookup wind_direction_deg m)) [
    | inl absent ↦ ground (arith, absent)
    | inr (v, found) ↦ ground (
      arith,
      found,
      h wind_direction_deg v found,
      laws.lt-of-le-lt v f.max_degrees (f.num 360),
      literals.max_degrees-lt-full,
    )
  ]

  pub fields_valid-measurements :
      (laws : FloatLaws F) (literals : LiteralLaws F) (m : Readings F)
      → IsInRange m
      → fields_valid (measurements_of m) ≡ true
  unfolding fields_valid
  fields_valid-measurements laws literals m h =
      rw
        (
          in_closed-lookup water_level_m 50 m refl h,
          in_closed-lookup river_flow_velocity_m_s 20 m refl h,
          in_closed-lookup rainfall_mm_h 500 m refl h,
          in_closed-lookup soil_saturation_pct 100 m refl h,
          in_closed-lookup wind_speed_m_s 100 m refl h,
          in_half_open-lookup laws literals m h,
        )
        refl

  pub all_none-measurements :
      (p : Param) (m : Readings F)
      → has m p ≡ true
      → all_none (model_dump (measurements_of m)) ≡ false
  unfolding all_none model_dump
  all_none-measurements p m h = ground (arith, h)
