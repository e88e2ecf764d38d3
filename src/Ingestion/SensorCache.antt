-- ===== src/Ingestion/SensorCache.antt =====
-- `SensorCache` of services/ingestion-gateway/src/ingestion_gateway/sensor_cache.py. The clock is read
-- before the lookup, and again when an entry is made; instants and the TTL are numbers of one unit.
use flood_monitoring_and_man.Common.{
  ℕ, ◌+◌, String, Option, none, some, string_eq, ltb, if◌then◌else◌, ◌≡◌, arith, eq_iff,
}
use flood_monitoring_and_man.Common.Dict.{Dict, lookup, insert, lookup-insert}

-- `value` is the area, or `none` for a sensor that was not found.
pub record CacheEntry : Type 0 where
  pub value : Option String
  pub expires_at : ℕ

pub record SensorCache : Type 0 where
  pub ttl : ℕ
  pub store : Dict String CacheEntry

-- What the query for an active sensor gives.
pub data DbResult : Type 0 where
  row : String → DbResult
  no_row db_error : DbResult

-- `_fetch_from_db`: an exception is logged, and None returned.
unfoldable pub fetch_from_db : DbResult → Option String
fetch_from_db (row area) = some area
fetch_from_db no_row = none
fetch_from_db db_error = none

abbrev pub store_entry : String → ℕ → Option String → SensorCache → SensorCache × Option String
store_entry sensor made_at area c = (
  record c {
    store = insert sensor (record { value = area; expires_at = made_at + c.ttl }) c.store;
  },
  area,
)

-- `entry is not None and entry.expires_at > now`
abbrev pub cached :
    String → ℕ → ℕ → DbResult → SensorCache → Option CacheEntry → SensorCache × Option String
cached sensor now made_at db c none = store_entry sensor made_at (fetch_from_db db) c
cached sensor now made_at db c (some entry) =
    if ltb now entry.expires_at
    then (c, entry.value)
    else store_entry sensor made_at (fetch_from_db db) c

unfoldable pub get_area_id : String → ℕ → ℕ → DbResult → SensorCache → SensorCache × Option String
unfolding fetch_from_db
get_area_id sensor now made_at db c = cached sensor now made_at db c (lookup sensor c.store)

-- An empty cache, or a call that finds no entry, asks the database and keeps its answer for the TTL;
-- also where the query failed: until then the sensor is taken for unknown, and the database is not
-- asked again, whatever it would answer.
pub get_area_id-again :
    (sensor : String) (now made_at : ℕ) (db : DbResult) (c : SensorCache) (now' made_at' : ℕ)
    (db' : DbResult)
    → lookup sensor c.store ≡ none
    → (get_area_id sensor now' made_at' db' (get_area_id sensor now made_at db c).0).1
      ≡ (if ltb now' (made_at + c.ttl) then fetch_from_db db else fetch_from_db db')
unfolding get_area_id
get_area_id-again sensor now made_at db c now' made_at' db' miss = ground (
  arith,
  eq_iff sensor sensor,
  lookup-insert sensor sensor (record { value = fetch_from_db db; expires_at = made_at + c.ttl })
      c.store,
)
