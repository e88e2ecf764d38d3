-- ===== src/Geo/Registration.antt =====
-- A sensor from its creation on: `create_sensor` and `get_sensor_area_binding` of
-- services/geo-service/src/geo_service/api.py.
use flood_monitoring_and_man.Common.{
  String, List, [], ◌∷◌, ◌++◌, Option, some, none, true, false, ◌≡◌, refl, subst, arith, inl, inr,
  ◌==◌, string_eq, eq_iff, any, if◌then◌else◌, Bool-cases,
}
use flood_monitoring_and_man.Auth.Api.{ok}
use flood_monitoring_and_man.Geo.Tables.{Sensor, Database, area_exists, same_sensor}
use flood_monitoring_and_man.Geo.Api.{
  Fresh, SensorCreated, is_active, active_sensor, create_sensor, get_sensor_area_binding,
}

active_sensor-new :
    (ss : List Sensor) (row : Sensor)
    → any (λ s. same_sensor s row) ss ≡ false
    → is_active row ≡ true
    → active_sensor row.sensor_id (ss ++ row ∷ []) ≡ some row
unfolding active_sensor
active_sensor-new [] row new active = ground (arith, active, eq_iff row.sensor_id row.sensor_id)
active_sensor-new (s ∷ ss) row new active = ground (arith, active_sensor-new ss row, active)

active_sensor-other :
    (id : String) (ss : List Sensor) (row : Sensor)
    → (row.sensor_id == id) ≡ false
    → active_sensor id (ss ++ row ∷ []) ≡ active_sensor id ss
unfolding active_sensor
active_sensor-other id [] row other = ground (arith, other)
active_sensor-other id (s ∷ ss) row other = ground (arith, active_sensor-other id ss row other)

-- What the creation of a sensor in an area makes of the tables.
pub record IsRegistered {F : Type 0} (hash_token : String → String) (area : String)
    (before after : Database F) (c : SensorCreated) (id : String) : Type 0 where
  pub known : area_exists area before ≡ true
  pub stored : active_sensor c.sensor.sensor_id after.sensors ≡ some c.sensor
  pub bound : get_sensor_area_binding c.sensor.sensor_id after ≡ ok (c.sensor.sensor_id, area)
  pub hashed : c.sensor.token_hash ≡ hash_token c.token
  -- The answer for any id.
  pub answers : get_sensor_area_binding id after ≡ (
      if c.sensor.sensor_id == id
      then ok (c.sensor.sensor_id, area)
      else get_sensor_area_binding id before)

module _ {F : Type 0} (hash_token : String → String) where
  -- Where a sensor is created, its area is one that exists and the answer to the gateway's question for
  -- it, the table has the hash of the token that is returned, and the answers for all other ids stay.
  pub create_sensor-IsRegistered :
      (area : String) (label : Option String) (f : Fresh) (db : Database F) (c : SensorCreated)
      (id : String)
      → (create_sensor hash_token area label f db).1 ≡ ok c
      → IsRegistered hash_token area db (create_sensor hash_token area label f db).0 c id
  unfolding create_sensor get_sensor_area_binding
  create_sensor-IsRegistered area label f db c id created =
      let row : Sensor = record {
        sensor_id = f.uuid;
        area_id = area;
        label = label;
        token_hash = hash_token f.token;
        decommissioned_at = none;
        created_at = f.now;
      } in
      let made : SensorCreated = record { sensor = row; token = f.token } in
      elim (Bool-cases (any (λ s. same_sensor s row) db.sensors)) [
        | inl taken ↦ ground (arith, created, taken)
        | inr new ↦ elim (Bool-cases (area_exists area db)) [
          | inr unknown ↦ ground (arith, created, new, unknown)
          | inl found ↦
              let same : made ≡ c = ground (arith, created, new, found) in
              let stored = active_sensor-new db.sensors row new refl in
              let after : Database F = record db { sensors = db.sensors ++ row ∷ [] } in
              subst
                (λ c.
                  IsRegistered hash_token area db (create_sensor hash_token area label f db).0 c id)
                same
                (rw (new, found)
                  (record {
                    known = found;
                    stored = stored;
                    bound = rw (get_sensor_area_binding, stored) refl;
                    hashed = refl;
                    answers = elim (Bool-cases (row.sensor_id == id)) [
                      | inl same ↦
                          let this : row.sensor_id ≡ id = (eq_iff row.sensor_id id).0 same in
                          rw same (
                            subst (λ i. get_sensor_area_binding i after ≡ ok (f.uuid, area)) this
                              (rw (get_sensor_area_binding, stored) refl))
                      | inr other ↦
                          rw
                            (
                              other,
                              get_sensor_area_binding,
                              active_sensor-other id db.sensors row other,
                            )
                            refl
                    ];
                  }))
        ]
      ]
