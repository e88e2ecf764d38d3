-- ===== src/Geo/Tables.antt =====
-- The tables of infra/postgres/init.sql that the geo service writes, with the constraints that its
-- statements meet: keys, UNIQUE and REFERENCES. Ids are UUIDs in one spelling.
use flood_monitoring_and_man.Common.{
  ℕ, String, List, Option, Bool, ◌&&◌, ◌||◌, ◌==◌, string_eq, any,
}
use flood_monitoring_and_man.RuleEngine.Models.{AreaThreshold}

pub record Region : Type 0 where
  pub region_id : String
  pub name : String
  pub created_at : ℕ

pub record City : Type 0 where
  pub city_id : String
  pub region_id : String
  pub name : String
  pub created_at : ℕ

pub record Area : Type 0 where
  pub area_id : String
  pub city_id : String
  pub name : String
  pub risk_profile : String
  pub created_at : ℕ

pub record Sensor : Type 0 where
  pub sensor_id : String
  pub area_id : String
  pub label : Option String
  pub token_hash : String
  pub decommissioned_at : Option ℕ
  pub created_at : ℕ

pub record Database (F : Type 0) : Type 0 where
  pub regions : List Region
  pub cities : List City
  pub areas : List Area
  pub sensors : List Sensor
  pub thresholds : List (AreaThreshold F)

-- Two rows that a key or a UNIQUE constraint keeps apart.
abbrev pub same_region : Region → Region → Bool
same_region r s = (r.region_id == s.region_id) || (r.name == s.name)

abbrev pub same_city : City → City → Bool
same_city c d = (c.city_id == d.city_id) || ((c.region_id == d.region_id) && (c.name == d.name))

abbrev pub same_area : Area → Area → Bool
same_area a b = (a.area_id == b.area_id) || ((a.city_id == b.city_id) && (a.name == b.name))

abbrev pub same_sensor : Sensor → Sensor → Bool
same_sensor s t = s.sensor_id == t.sensor_id

module _ {F : Type 0} where
  abbrev pub same_threshold : AreaThreshold F → AreaThreshold F → Bool
  same_threshold t u = (t.area_id == u.area_id) && (t.parameter == u.parameter)

  abbrev pub region_exists : String → Database F → Bool
  region_exists id db = any (λ r. r.region_id == id) db.regions

  abbrev pub city_exists : String → Database F → Bool
  city_exists id db = any (λ c. c.city_id == id) db.cities

  abbrev pub area_exists : String → Database F → Bool
  area_exists id db = any (λ a. a.area_id == id) db.areas
