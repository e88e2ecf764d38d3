-- ===== src/Geo/Hierarchy.antt =====
-- What the requests of services/geo-service/src/geo_service/api.py keep of the tables: the keys and the
-- references of regions, cities, areas, sensors and thresholds.
use flood_monitoring_and_man.Common.{
  String, List, [], ◌∷◌, Bool, true, false, not, ◌&&◌, ◌≡◌, refl, ◌==◌, string_eq, any, Distinct,
  Distinct-append, if◌then◌else◌, Option, none,
}
use flood_monitoring_and_man.RuleEngine.Models.{AreaThreshold}
use flood_monitoring_and_man.Geo.Tables.{
  Region, City, Area, Sensor, Database, same_region, same_city, same_area, same_sensor,
  same_threshold, region_exists, city_exists, area_exists,
}
use flood_monitoring_and_man.Geo.Api.{
  Fresh, valid_name, Request, post_region, post_city, post_area, post_sensor, delete_sensor,
  put_threshold, AreaThresholdUpsert, is_active, create_region, create_city, create_area,
  create_sensor, decommission_sensor, upsert_area_threshold, serve, serve_all,
}
use flood_monitoring_and_man.Geo.References.{
  Refers, Refers-parent, Refers-child, Distinct-decommissioned, Refers-decommissioned,
  Distinct-upsert, Refers-upsert,
}

module _ {F : Type 0} where
  -- Keys and UNIQUE columns are distinct, and every reference is to a row.
  pub record IsLinked (db : Database F) : Type 0 where
    pub regions : Distinct same_region db.regions
    pub cities : Distinct same_city db.cities
    pub areas : Distinct same_area db.areas
    pub sensors : Distinct same_sensor db.sensors
    pub thresholds : Distinct same_threshold db.thresholds
    pub regions_known : Refers (λ r. r.region_id) (λ c. c.region_id) db.regions db.cities
    pub cities_known : Refers (λ c. c.city_id) (λ a. a.city_id) db.cities db.areas
    pub areas_known : Refers (λ a. a.area_id) (λ s. s.area_id) db.areas db.sensors
    pub limits_known : Refers (λ a. a.area_id) (λ t. t.area_id) db.areas db.thresholds

  IsLinked-if :
      {R : Type 0} (b : Bool) (x y : Database F × R)
      → (b ≡ true → IsLinked x.0)
      → (b ≡ false → IsLinked y.0)
      → IsLinked (if b then x else y).0
  IsLinked-if true x y then_linked else_linked = then_linked refl
  IsLinked-if false x y then_linked else_linked = else_linked refl

  create_region-IsLinked :
      (name : String) (f : Fresh) (db : Database F)
      → IsLinked db
      → IsLinked (create_region name f db).0
  unfolding create_region
  create_region-IsLinked name f db h =
      let row : Region = record { region_id = f.uuid; name = name; created_at = f.now } in
      IsLinked-if (not (valid_name name)) _ _ (λ _. h)
        (λ _.
          IsLinked-if (any (λ r. same_region r row) db.regions) _ _ (λ _. h)
            (λ new. record {
              regions = Distinct-append _ db.regions row new h.regions;
              cities = h.cities;
              areas = h.areas;
              sensors = h.sensors;
              thresholds = h.thresholds;
              regions_known = Refers-parent _ _ db.regions row db.cities h.regions_known;
              cities_known = h.cities_known;
              areas_known = h.areas_known;
              limits_known = h.limits_known;
            }))

  create_city-IsLinked :
      (region name : String) (f : Fresh) (db : Database F)
      → IsLinked db
      → IsLinked (create_city region name f db).0
  unfolding create_city
  create_city-IsLinked region name f db h =
      let row : City = record {
        city_id = f.uuid;
        region_id = region;
        name = name;
        created_at = f.now;
      } in
      IsLinked-if (not (valid_name name)) _ _ (λ _. h)
        (λ _.
          IsLinked-if (any (λ c. same_city c row) db.cities) _ _ (λ _. h)
            (λ new.
              IsLinked-if (region_exists region db) _ _
                (λ found. record {
                  regions = h.regions;
                  cities = Distinct-append _ db.cities row new h.cities;
                  areas = h.areas;
                  sensors = h.sensors;
                  thresholds = h.thresholds;
                  regions_known = Refers-child _ _ db.regions db.cities row found h.regions_known;
                  cities_known = Refers-parent _ _ db.cities row db.areas h.cities_known;
                  areas_known = h.areas_known;
                  limits_known = h.limits_known;
                })
                (λ _. h)))

  create_area-IsLinked :
      (city name risk : String) (f : Fresh) (db : Database F)
      → IsLinked db
      → IsLinked (create_area city name risk f db).0
  unfolding create_area
  create_area-IsLinked city name risk f db h =
      let row : Area = record {
        area_id = f.uuid;
        city_id = city;
        name = name;
        risk_profile = risk;
        created_at = f.now;
      } in
      IsLinked-if (not (valid_name name)) _ _ (λ _. h)
        (λ _.
          IsLinked-if (any (λ a. same_area a row) db.areas) _ _ (λ _. h)
            (λ new.
              IsLinked-if (city_exists city db) _ _
                (λ found. record {
                  regions = h.regions;
                  cities = h.cities;
                  areas = Distinct-append _ db.areas row new h.areas;
                  sensors = h.sensors;
                  thresholds = h.thresholds;
                  regions_known = h.regions_known;
                  cities_known = Refers-child _ _ db.cities db.areas row found h.cities_known;
                  areas_known = Refers-parent _ _ db.areas row db.sensors h.areas_known;
                  limits_known = Refers-parent _ _ db.areas row db.thresholds h.limits_known;
                })
                (λ _. h)))

  create_sensor-IsLinked :
      (hash_token : String → String) (area : String) (label : Option String) (f : Fresh)
      (db : Database F)
      → IsLinked db
      → IsLinked (create_sensor hash_token area label f db).0
  unfolding create_sensor
  create_sensor-IsLinked hash_token area label f db h =
      let row : Sensor = record {
        sensor_id = f.uuid;
        area_id = area;
        label = label;
        token_hash = hash_token f.token;
        decommissioned_at = none;
        created_at = f.now;
      } in
      IsLinked-if (any (λ s. same_sensor s row) db.sensors) _ _ (λ _. h)
        (λ new.
          IsLinked-if (area_exists area db) _ _
            (λ found. record {
              regions = h.regions;
              cities = h.cities;
              areas = h.areas;
              sensors = Distinct-append _ db.sensors row new h.sensors;
              thresholds = h.thresholds;
              regions_known = h.regions_known;
              cities_known = h.cities_known;
              areas_known = Refers-child _ _ db.areas db.sensors row found h.areas_known;
              limits_known = h.limits_known;
            })
            (λ _. h))

  decommission_sensor-IsLinked :
      (id : String) (f : Fresh) (db : Database F)
      → IsLinked db
      → IsLinked (decommission_sensor id f db).0
  unfolding decommission_sensor
  decommission_sensor-IsLinked id f db h =
      IsLinked-if (any (λ s. (s.sensor_id == id) && is_active s) db.sensors) _ _
        (λ _. record {
          regions = h.regions;
          cities = h.cities;
          areas = h.areas;
          sensors = Distinct-decommissioned id f.now db.sensors h.sensors;
          thresholds = h.thresholds;
          regions_known = h.regions_known;
          cities_known = h.cities_known;
          areas_known = Refers-decommissioned id f.now db.areas db.sensors h.areas_known;
          limits_known = h.limits_known;
        })
        (λ _. h)

  upsert_area_threshold-IsLinked :
      (area parameter : String) (body : AreaThresholdUpsert F) (db : Database F)
      → IsLinked db
      → IsLinked (upsert_area_threshold area parameter body db).0
  unfolding upsert_area_threshold
  upsert_area_threshold-IsLinked area parameter body db h =
      let row : AreaThreshold F = record {
        area_id = area;
        parameter = parameter;
        warning_lo = body.warning_lo;
        warning_hi = body.warning_hi;
        critical_lo = body.critical_lo;
        critical_hi = body.critical_hi;
      } in
      IsLinked-if (area_exists area db) _ _
        (λ found. record {
          regions = h.regions;
          cities = h.cities;
          areas = h.areas;
          sensors = h.sensors;
          thresholds = Distinct-upsert row db.thresholds h.thresholds;
          regions_known = h.regions_known;
          cities_known = h.cities_known;
          areas_known = h.areas_known;
          limits_known = Refers-upsert db.areas row db.thresholds found h.limits_known;
        })
        (λ _. h)

  module _ (hash_token : String → String) where
    pub serve-IsLinked :
        (q : Request F) (db : Database F) → IsLinked db → IsLinked (serve hash_token q db)
    unfolding serve
    serve-IsLinked (post_region name f) db h = create_region-IsLinked name f db h
    serve-IsLinked (post_city region name f) db h = create_city-IsLinked region name f db h
    serve-IsLinked (post_area city name risk f) db h = create_area-IsLinked city name risk f db h
    serve-IsLinked (post_sensor area label f) db h =
        create_sensor-IsLinked hash_token area label f db h
    serve-IsLinked (delete_sensor id f) db h = decommission_sensor-IsLinked id f db h
    serve-IsLinked (put_threshold area parameter body) db h =
        upsert_area_threshold-IsLinked area parameter body db h

    -- Whatever requests are served, accepted or refused, and also where the database draws a UUID that is
    -- taken: from tables in which ids, names in a parent, and the pairs of area and parameter of the
    -- thresholds are distinct, and in which every city's region, every area's city and every sensor's
    -- and threshold's area exist, they come to such tables again.
    pub serve_all-IsLinked :
        (qs : List (Request F)) (db : Database F)
        → IsLinked db
        → IsLinked (serve_all hash_token qs db)
    unfolding serve_all
    serve_all-IsLinked [] db h = h
    serve_all-IsLinked (q ∷ qs) db h =
        serve_all-IsLinked qs (serve hash_token q db) (serve-IsLinked q db h)
