-- ===== src/Geo/Registry.antt =====
-- The registry of sensors that the ingestion gateway asks: services/ingestion-gateway/src/
-- ingestion_gateway/sensor_cache.py, `_fetch_from_db`, on the geo service's table.
use flood_monitoring_and_man.Common.{
  ℕ, String, List, [], ◌∷◌, ◌++◌, Option, none, some, true, false, ◌≡◌, refl, subst, arith, inl,
  inr, ◌==◌, string_eq, any, map, if◌then◌else◌, Bool-cases, Option-cases, eq_iff, ==-comm,
  Distinct,
}
use flood_monitoring_and_man.Ingestion.SensorCache.{DbResult, row, no_row, fetch_from_db}
use flood_monitoring_and_man.Geo.Tables.{Sensor, Database, same_sensor, area_exists}
use flood_monitoring_and_man.Geo.Api.{active_sensor, decommission_row}
use flood_monitoring_and_man.Geo.References.{Refers, decommission_row-key, decommission_row-area}

-- The area of a sensor's row, also of one that is decommissioned.
unfoldable pub area_of : List Sensor → String → Option String
area_of [] id = none
area_of (s ∷ ss) id = if s.sensor_id == id then some s.area_id else area_of ss id

pub area_of-append :
    (id area : String) (ss : List Sensor) (new : Sensor)
    → area_of ss id ≡ some area
    → area_of (ss ++ new ∷ []) id ≡ some area
unfolding area_of
area_of-append id area [] new h = ground (arith, h)
area_of-append id area (s ∷ ss) new h = ground (arith, area_of-append id area ss new)

pub area_of-updated :
    (id : String) (ss : List Sensor) (id' : String) (now : ℕ)
    → area_of (map (decommission_row id' now) ss) id ≡ area_of ss id
unfolding area_of
area_of-updated id [] id' now = refl
area_of-updated id (s ∷ ss) id' now =
    rw
      (
        area_of-updated id ss id' now,
        decommission_row-key id' now s,
        decommission_row-area id' now s,
      )
      refl

any-same_sensor :
    (s : Sensor) (id : String) (ss : List Sensor)
    → any (same_sensor s) ss ≡ false
    → (s.sensor_id == id) ≡ true
    → active_sensor id ss ≡ none
unfolding active_sensor
any-same_sensor s id [] h same = refl
any-same_sensor s id (t ∷ ss) h same =
    ground (arith, any-same_sensor s id ss, eq_iff s.sensor_id id, ==-comm s.sensor_id t.sensor_id)

active_sensor-area_of :
    (id : String) (ss : List Sensor) (s : Sensor)
    → Distinct same_sensor ss
    → active_sensor id ss ≡ some s
    → area_of ss id ≡ some s.area_id
unfolding area_of active_sensor
active_sensor-area_of id [] s h found = ground (arith, found)
active_sensor-area_of id (t ∷ ss) s h found =
    ground (arith, active_sensor-area_of id ss s h.1, any-same_sensor t id ss h.0, found)

pub area_of-area_exists :
    {F : Type 0} (id area : String) (db : Database F) (ss : List Sensor)
    → Refers (λ a. a.area_id) (λ s. s.area_id) db.areas ss
    → area_of ss id ≡ some area
    → area_exists area db ≡ true
unfolding area_of
area_of-area_exists id area db [] h found = ground (arith, found)
area_of-area_exists id area db (s ∷ ss) h found = elim (Bool-cases (s.sensor_id == id)) [
  | inl same ↦
      let here : s.area_id ≡ area = ground (arith, same, found) in
      subst (λ a. area_exists a db ≡ true) here h.0
  | inr other ↦ area_of-area_exists id area db ss h.1 (ground (arith, other, found))
]

-- The gateway's query, on the tables as they are.
unfoldable pub query : String → List Sensor → DbResult
unfolding active_sensor
query id ss = elim (active_sensor id ss) [ none ↦ no_row | some s ↦ row s.area_id ]

pub query-honest :
    (id area : String) (ss : List Sensor)
    → Distinct same_sensor ss
    → fetch_from_db (query id ss) ≡ some area
    → area_of ss id ≡ some area
unfolding query fetch_from_db
query-honest id area ss h got = elim (Option-cases (active_sensor id ss)) [
  | inl missing ↦ ground (arith, missing, got)
  | inr (s, found) ↦ ground (arith, found, got, active_sensor-area_of id ss s h found)
]
