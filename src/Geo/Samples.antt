-- ===== src/Geo/Samples.antt =====
-- Tables of the geo service that the witnesses use.
use flood_monitoring_and_man.Common.{ℕ, [], ◌∷◌, none, some, refl, string_eq}
use flood_monitoring_and_man.Geo.Tables.{Database}
use flood_monitoring_and_man.Geo.Hierarchy.{IsLinked}

-- One row in every table.
abbrev pub tables : Database ℕ
tables = record {
  regions = record { region_id = "r"; name = "North"; created_at = 0 } ∷ [];
  cities = record { city_id = "c"; region_id = "r"; name = "Town"; created_at = 0 } ∷ [];
  areas =
      record {
        area_id = "a";
        city_id = "c";
        name = "Docks";
        risk_profile = "standard";
        created_at = 0;
      }
      ∷ [];
  sensors =
      record {
        sensor_id = "s";
        area_id = "a";
        label = none;
        token_hash = "h";
        decommissioned_at = none;
        created_at = 0;
      }
      ∷ [];
  thresholds =
      record {
        area_id = "a";
        parameter = "rainfall_mm_h";
        warning_lo = none;
        warning_hi = some 10;
        critical_lo = none;
        critical_hi = some 20;
      }
      ∷ [];
}

pub tables-IsLinked : IsLinked tables
tables-IsLinked = record {
  regions = (refl, tt);
  cities = (refl, tt);
  areas = (refl, tt);
  sensors = (refl, tt);
  thresholds = (refl, tt);
  regions_known = (refl, tt);
  cities_known = (refl, tt);
  areas_known = (refl, tt);
  limits_known = (refl, tt);
}
