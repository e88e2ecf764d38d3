-- ===== src/Wire/Parameters.antt =====
-- `Measurements` and its view as a dictionary.
use flood_monitoring_and_man.Common.{String, List, [], ◌∷◌, Option, none, some}

pub record Measurements (F : Type 0) : Type 0 where
  pub water_level_m : Option F
  pub river_flow_velocity_m_s : Option F
  pub rainfall_mm_h : Option F
  pub soil_saturation_pct : Option F
  pub wind_speed_m_s : Option F
  pub wind_direction_deg : Option F

module _ {F : Type 0} where
  -- `self.model_dump()`: every field, in the order of declaration.
  unfoldable pub model_dump : Measurements F → List (String × Option F)
  model_dump m =
      ("water_level_m", m.water_level_m)
      ∷ ("river_flow_velocity_m_s", m.river_flow_velocity_m_s)
      ∷ ("rainfall_mm_h", m.rainfall_mm_h)
      ∷ ("soil_saturation_pct", m.soil_saturation_pct)
      ∷ ("wind_speed_m_s", m.wind_speed_m_s)
      ∷ ("wind_direction_deg", m.wind_direction_deg)
      ∷ []

  -- `{k: v for k, v in items if v is not None}`
  unfoldable pub present : List (String × Option F) → List (String × F)
  present [] = []
  present ((k, none) ∷ items) = present items
  present ((k, some v) ∷ items) = (k, v) ∷ present items

  unfoldable pub as_param_dict : Measurements F → List (String × F)
  unfolding model_dump present
  as_param_dict m = present (model_dump m)
