-- ===== src/Geo/Api.antt =====
-- The endpoints of services/geo-service/src/geo_service/api.py. The UUID and the time that the database
-- gives a new row, and the token that is drawn, are arguments; `hash_token` is SHA-256, `order_by` what
-- an ORDER BY makes of the rows.
use flood_monitoring_and_man.Common.{
  ℕ, String, List, [], ◌∷◌, ◌++◌, Option, none, some, Bool, true, false, not, ◌&&◌, ◌==◌, string_eq,
  any, first, keep_if, map, leb, if◌then◌else◌,
}
use Prim.Native.String.{count}
use flood_monitoring_and_man.RuleEngine.Models.{AreaThreshold}
use flood_monitoring_and_man.Auth.Api.{Reply, ok, http_error}
use flood_monitoring_and_man.Geo.Tables.{
  Region, City, Area, Sensor, Database, same_region, same_city, same_area, same_sensor,
  same_threshold, region_exists, city_exists, area_exists,
}

pub record Fresh : Type 0 where
  pub uuid : String
  pub now : ℕ
  pub token : String

-- `Field(..., min_length=1, max_length=255)`; the framework answers 422.
abbrev pub valid_name : String → Bool
valid_name name = leb 1 (count name) && leb (count name) 255

-- `SensorCreated`: the token in plain text stands in this response only.
pub record SensorCreated : Type 0 where
  pub sensor : Sensor
  pub token : String

pub record AreaThresholdUpsert (F : Type 0) : Type 0 where
  pub warning_lo : Option F
  pub warning_hi : Option F
  pub critical_lo : Option F
  pub critical_hi : Option F

abbrev pub is_active : Sensor → Bool
is_active s = elim s.decommissioned_at [ none ↦ true | some at ↦ false ]

unfoldable pub decommission_row : String → ℕ → Sensor → Sensor
decommission_row id now s =
    if (s.sensor_id == id) && is_active s then record s { decommissioned_at = some now } else s

-- SELECT … WHERE sensor_id = $1 AND decommissioned_at IS NULL
unfoldable pub active_sensor : String → List Sensor → Option Sensor
active_sensor id sensors = first (λ s. (s.sensor_id == id) && is_active s) sensors

module _ {F : Type 0} where
  unfoldable pub create_region : String → Fresh → Database F → Database F × Reply Region
  create_region name f db =
      let row : Region = record { region_id = f.uuid; name = name; created_at = f.now } in
      if not (valid_name name)
      then (db, http_error 422)
      else if any (λ r. same_region r row) db.regions
      then (db, http_error 409)
      else (record db { regions = db.regions ++ row ∷ [] }, ok row)

  -- A unique index is met before a reference is checked.
  unfoldable pub create_city : String → String → Fresh → Database F → Database F × Reply City
  create_city region name f db =
      let row : City = record {
        city_id = f.uuid;
        region_id = region;
        name = name;
        created_at = f.now;
      } in
      if not (valid_name name)
      then (db, http_error 422)
      else if any (λ c. same_city c row) db.cities
      then (db, http_error 409)
      else if region_exists region db
      then (record db { cities = db.cities ++ row ∷ [] }, ok row)
      else (db, http_error 404)

  unfoldable pub create_area :
      String → String → String → Fresh → Database F → Database F × Reply Area
  create_area city name risk_profile f db =
      let row : Area = record {
        area_id = f.uuid;
        city_id = city;
        name = name;
        risk_profile = risk_profile;
        created_at = f.now;
      } in
      if not (valid_name name)
      then (db, http_error 422)
      else if any (λ a. same_area a row) db.areas
      then (db, http_error 409)
      else if city_exists city db
      then (record db { areas = db.areas ++ row ∷ [] }, ok row)
      else (db, http_error 404)

  -- The token's hash is stored; a UUID that is taken is an exception that nothing catches.
  unfoldable pub create_sensor :
      (String → String)
      → String
      → Option String
      → Fresh
      → Database F
      → Database F × Reply SensorCreated
  create_sensor hash_token area label f db =
      let row : Sensor = record {
        sensor_id = f.uuid;
        area_id = area;
        label = label;
        token_hash = hash_token f.token;
        decommissioned_at = none;
        created_at = f.now;
      } in
      if any (λ s. same_sensor s row) db.sensors
      then (db, http_error 500)
      else if area_exists area db
      then (
        record db { sensors = db.sensors ++ row ∷ [] },
        ok (record { sensor = row; token = f.token }),
      )
      else (db, http_error 404)

  unfoldable pub decommission_sensor : String → Fresh → Database F → Database F × Reply Unit
  unfolding decommission_row
  decommission_sensor id f db =
      if any (λ s. (s.sensor_id == id) && is_active s) db.sensors
      then (record db { sensors = map (decommission_row id f.now) db.sensors }, ok tt)
      else (db, http_error 404)

  unfoldable pub list_areas : (List Area → List Area) → Database F → List Area
  list_areas order_by db = order_by db.areas

  unfoldable pub get_area : String → Database F → Reply Area
  get_area id db = elim (first (λ a. a.area_id == id) db.areas) [
    | none ↦ http_error 404
    | some a ↦ ok a
  ]

  unfoldable pub list_area_sensors :
      (List Sensor → List Sensor) → String → Database F → Reply (List Sensor)
  list_area_sensors order_by area db =
      if area_exists area db
      then ok (order_by (keep_if (λ s. (s.area_id == area) && is_active s) db.sensors))
      else http_error 404

  -- `SensorAreaBinding`: the sensor and its area.
  unfoldable pub get_sensor_area_binding : String → Database F → Reply (String × String)
  unfolding active_sensor
  get_sensor_area_binding id db = elim (active_sensor id db.sensors) [
    | none ↦ http_error 404
    | some s ↦ ok (s.sensor_id, s.area_id)
  ]

  unfoldable pub list_area_thresholds :
      (List (AreaThreshold F) → List (AreaThreshold F))
      → String
      → Database F
      → Reply (List (AreaThreshold F))
  list_area_thresholds order_by area db =
      if area_exists area db
      then ok (order_by (keep_if (λ t. t.area_id == area) db.thresholds))
      else http_error 404

  -- INSERT … ON CONFLICT (area_id, parameter) DO UPDATE
  unfoldable pub upsert : AreaThreshold F → List (AreaThreshold F) → List (AreaThreshold F)
  upsert new [] = new ∷ []
  upsert new (t ∷ ts) = if same_threshold t new then new ∷ ts else t ∷ upsert new ts

  unfoldable pub upsert_area_threshold :
      String → String → AreaThresholdUpsert F → Database F → Database F × Reply (AreaThreshold F)
  unfolding upsert
  upsert_area_threshold area parameter body db =
      let row : AreaThreshold F = record {
        area_id = area;
        parameter = parameter;
        warning_lo = body.warning_lo;
        warning_hi = body.warning_hi;
        critical_lo = body.critical_lo;
        critical_hi = body.critical_hi;
      } in
      if area_exists area db
      then (record db { thresholds = upsert row db.thresholds }, ok row)
      else (db, http_error 404)

-- The requests that write.
pub data Request (F : Type 0) : Type 0 where
  post_region : String → Fresh → Request F
  post_city : String → String → Fresh → Request F
  post_area : String → String → String → Fresh → Request F
  post_sensor : String → Option String → Fresh → Request F
  delete_sensor : String → Fresh → Request F
  put_threshold : String → String → AreaThresholdUpsert F → Request F

module _ {F : Type 0} (hash_token : String → String) where
  unfoldable pub serve : Request F → Database F → Database F
  unfolding create_region create_city create_area create_sensor decommission_sensor
      upsert_area_threshold
  serve (post_region name f) db = (create_region name f db).0
  serve (post_city region name f) db = (create_city region name f db).0
  serve (post_area city name risk f) db = (create_area city name risk f db).0
  serve (post_sensor area label f) db = (create_sensor hash_token area label f db).0
  serve (delete_sensor id f) db = (decommission_sensor id f db).0
  serve (put_threshold area parameter body) db = (upsert_area_threshold area parameter body db).0

  unfoldable pub serve_all : List (Request F) → Database F → Database F
  serve_all [] db = db
  serve_all (q ∷ qs) db = serve_all qs (serve q db)
