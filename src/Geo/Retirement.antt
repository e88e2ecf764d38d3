-- ===== src/Geo/Retirement.antt =====
-- What becomes of the rows of sensors: services/geo-service/src/geo_service/api.py inserts them and
-- marks them, and does nothing else with them.
use flood_monitoring_and_man.Common.{
  ℕ, String, List, [], ◌∷◌, ◌++◌, Option, none, true, false, ◌&&◌, ◌≡◌, refl, arith, inl, inr, ◌==◌,
  string_eq, any, any-append_left, map, Bool-cases, eq_iff,
}
use flood_monitoring_and_man.Auth.Api.{ok, http_error}
use flood_monitoring_and_man.Geo.Tables.{Sensor, Database, same_sensor, area_exists}
use flood_monitoring_and_man.Geo.Api.{
  Fresh, Request, post_region, post_city, post_area, post_sensor, delete_sensor, put_threshold,
  is_active, active_sensor, decommission_row, decommission_sensor, create_region, create_city,
  create_area, create_sensor, upsert_area_threshold, get_sensor_area_binding, serve, serve_all,
}
use flood_monitoring_and_man.Geo.References.{decommission_row-key}

-- What an insertion of a new row and an UPDATE keep of the sensors, every request keeps.
module _ {F : Type 0} (hash_token : String → String) (P : List Sensor → Type 0)
    (inserted : (ss : List Sensor) (row : Sensor)
      → any (λ s. same_sensor s row) ss ≡ false
      → P ss
      → P (ss ++ row ∷ []))
    (updated : (ss : List Sensor) (id : String) (now : ℕ)
      → P ss
      → P (map (decommission_row id now) ss)) where
  create_sensor-keeps :
      (area : String) (label : Option String) (f : Fresh) (db : Database F)
      → P db.sensors
      → P (create_sensor hash_token area label f db).0.sensors
  unfolding create_sensor
  create_sensor-keeps area label f db h =
      let row : Sensor = record {
        sensor_id = f.uuid;
        area_id = area;
        label = label;
        token_hash = hash_token f.token;
        decommissioned_at = none;
        created_at = f.now;
      } in
      elim (Bool-cases (any (λ s. same_sensor s row) db.sensors)) [
        | inl taken ↦ rw taken h
        | inr new ↦ elim (Bool-cases (area_exists area db)) [
          | inl found ↦ rw (new, found) (inserted db.sensors row new h)
          | inr unknown ↦ rw (new, unknown) h
        ]
      ]

  pub serve-keeps :
      (q : Request F) (db : Database F) → P db.sensors → P (serve hash_token q db).sensors
  unfolding serve create_region create_city create_area decommission_sensor upsert_area_threshold
  serve-keeps (post_region name f) db h = ground (arith, h)
  serve-keeps (post_city region name f) db h = ground (arith, h)
  serve-keeps (post_area city name risk f) db h = ground (arith, h)
  serve-keeps (post_sensor area label f) db h = create_sensor-keeps area label f db h
  serve-keeps (delete_sensor id f) db h = ground (arith, h, updated db.sensors id f.now h)
  serve-keeps (put_threshold area parameter body) db h = ground (arith, h)

  pub serve_all-keeps :
      (qs : List (Request F)) (db : Database F)
      → P db.sensors
      → P (serve_all hash_token qs db).sensors
  unfolding serve_all
  serve_all-keeps [] db h = h
  serve_all-keeps (q ∷ qs) db h = serve_all-keeps qs (serve hash_token q db) (serve-keeps q db h)

-- The sensor's row is there, and it is not active.
pub record IsRetired (id : String) (ss : List Sensor) : Type 0 where
  pub stored : any (λ s. s.sensor_id == id) ss ≡ true
  pub inactive : active_sensor id ss ≡ none

active_sensor-append :
    (id : String) (ss : List Sensor) (row : Sensor)
    → (row.sensor_id == id) ≡ false
    → active_sensor id ss ≡ none
    → active_sensor id (ss ++ row ∷ []) ≡ none
unfolding active_sensor
active_sensor-append id [] row other h = ground (arith, other)
active_sensor-append id (s ∷ ss) row other h = ground (arith, active_sensor-append id ss row other)

other-key :
    (id : String) (ss : List Sensor) (row : Sensor)
    → any (λ s. same_sensor s row) ss ≡ false
    → any (λ s. s.sensor_id == id) ss ≡ true
    → (row.sensor_id == id) ≡ false
other-key id ss row new stored = ground (arith, eq_iff row.sensor_id id)

active_sensor-updated :
    (id : String) (ss : List Sensor) (id' : String) (now : ℕ)
    → active_sensor id ss ≡ none
    → active_sensor id (map (decommission_row id' now) ss) ≡ none
unfolding active_sensor decommission_row
active_sensor-updated id [] id' now h = refl
active_sensor-updated id (s ∷ ss) id' now h = ground (arith, active_sensor-updated id ss id' now)

active_sensor-decommissioned :
    (id : String) (ss : List Sensor) (now : ℕ)
    → active_sensor id (map (decommission_row id now) ss) ≡ none
unfolding active_sensor decommission_row
active_sensor-decommissioned id [] now = refl
active_sensor-decommissioned id (s ∷ ss) now =
    ground (arith, active_sensor-decommissioned id ss now)

pub any-updated :
    (id : String) (ss : List Sensor) (id' : String) (now : ℕ)
    → any (λ s. s.sensor_id == id) (map (decommission_row id' now) ss)
      ≡ any (λ s. s.sensor_id == id) ss
any-updated id [] id' now = refl
any-updated id (s ∷ ss) id' now =
    rw (any-updated id ss id' now, decommission_row-key id' now s) refl

append-IsRetired :
    (id : String) (ss : List Sensor) (row : Sensor)
    → any (λ s. same_sensor s row) ss ≡ false
    → IsRetired id ss
    → IsRetired id (ss ++ row ∷ [])
append-IsRetired id ss row new h = record {
  stored = any-append_left _ ss _ h.stored;
  inactive = active_sensor-append id ss row (other-key id ss row new h.stored) h.inactive;
}

updated-IsRetired :
    (id : String) (ss : List Sensor) (id' : String) (now : ℕ)
    → IsRetired id ss
    → IsRetired id (map (decommission_row id' now) ss)
updated-IsRetired id ss id' now h = record {
  stored = rw (any-updated id ss id' now) h.stored;
  inactive = active_sensor-updated id ss id' now h.inactive;
}

any-active :
    (id : String) (ss : List Sensor)
    → any (λ s. (s.sensor_id == id) && is_active s) ss ≡ true
    → any (λ s. s.sensor_id == id) ss ≡ true
any-active id [] h = h
any-active id (s ∷ ss) h = ground (arith, any-active id ss)

no_active :
    (id : String) (ss : List Sensor)
    → active_sensor id ss ≡ none
    → any (λ s. (s.sensor_id == id) && is_active s) ss ≡ false
unfolding active_sensor
no_active id [] h = refl
no_active id (s ∷ ss) h = ground (arith, no_active id ss)

module _ {F : Type 0} (hash_token : String → String) where
  decommission_sensor-IsRetired :
      (id : String) (f : Fresh) (db : Database F)
      → (decommission_sensor id f db).1 ≡ ok tt
      → IsRetired id (decommission_sensor id f db).0.sensors
  unfolding decommission_sensor
  decommission_sensor-IsRetired id f db done =
      elim (Bool-cases (any (λ s. (s.sensor_id == id) && is_active s) db.sensors)) [
        | inl active ↦ rw active (record {
          stored = rw (any-updated id db.sensors id f.now) (any-active id db.sensors active);
          inactive = active_sensor-decommissioned id db.sensors f.now;
        })
        | inr unknown ↦ ground (arith, done, unknown)
      ]

  retired-not_found :
      (id : String) (f : Fresh) (db : Database F)
      → IsRetired id db.sensors
      → (get_sensor_area_binding id db ≡ http_error 404)
        × (decommission_sensor id f db ≡ (db, http_error 404))
  unfolding get_sensor_area_binding decommission_sensor
  retired-not_found id f db h = (
    rw (get_sensor_area_binding, h.inactive) refl,
    rw (decommission_sensor, no_active id db.sensors h.inactive) refl,
  )

  -- Once the request to decommission a sensor has succeeded, then after any further requests, new
  -- sensors included, the sensor's area is not found, and to decommission it again is refused with 404
  -- and changes nothing.
  pub decommission_sensor-final :
      (id : String) (f f' : Fresh) (qs : List (Request F)) (db : Database F)
      → (decommission_sensor id f db).1 ≡ ok tt
      → (get_sensor_area_binding id (serve_all hash_token qs (decommission_sensor id f db).0)
          ≡ http_error 404)
        × (decommission_sensor id f' (serve_all hash_token qs (decommission_sensor id f db).0)
            ≡ (serve_all hash_token qs (decommission_sensor id f db).0, http_error 404))
  decommission_sensor-final id f f' qs db done =
      retired-not_found id f' (serve_all hash_token qs (decommission_sensor id f db).0) (
        serve_all-keeps hash_token (IsRetired id) (append-IsRetired id) (updated-IsRetired id) qs
          (decommission_sensor id f db).0 (decommission_sensor-IsRetired id f db done))
