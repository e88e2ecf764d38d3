-- ===== src/Geo/Placement.antt =====
-- The geo service's requests between the messages of the ingestion gateway, which asks the table of
-- sensors (services/ingestion-gateway/src/ingestion_gateway/sensor_cache.py, `_fetch_from_db`).
use flood_monitoring_and_man.Common.{
  ℕ, String, List, [], ◌∷◌, some, Bool, true, false, ◌≡◌, arith, string_eq, if◌then◌else◌, All,
  All-weaken, Distinct,
}
use flood_monitoring_and_man.Common.Float.{Float}
use flood_monitoring_and_man.Wire.Validation.{Payload}
use flood_monitoring_and_man.Ingestion.SensorCache.{DbResult, no_row, db_error, fetch_from_db}
use flood_monitoring_and_man.Ingestion.Gateway.{
  Decoded, json, other_json, bad_json, bad_unicode, Incoming, Gateway, new_gateway, on_message,
}
use flood_monitoring_and_man.Ingestion.Gateway.Bound.{
  IsHonest, IsBinding, IsSafe, on_message-IsSafe, new_gateway-IsSafe, keep-IsSafe,
}
use flood_monitoring_and_man.Geo.Tables.{Sensor, Database, same_sensor, area_exists}
use flood_monitoring_and_man.Geo.Api.{Request, serve}
use flood_monitoring_and_man.Geo.Hierarchy.{IsLinked, serve-IsLinked}
use flood_monitoring_and_man.Geo.Registry.{
  area_of, area_of-append, area_of-updated, area_of-area_exists, query, query-honest,
}
use flood_monitoring_and_man.Geo.Retirement.{serve-keeps}

-- A request to the geo service, or a message to the gateway, with whether the database is down.
pub data Event (F : Type 0) : Type 0 where
  request : Request F → Event F
  message : Incoming F → Bool → Event F

pub record World (F : Type 0) : Type 0 where
  pub db : Database F
  pub gateway : Gateway F

module _ {F : Type 0} where
  -- What the database answers for a message that is decoded; only an object has a sensor to ask for.
  unfoldable pub answer : Decoded F → List Sensor → DbResult
  unfolding query
  answer (json p) ss = query p.sensor_id ss
  answer other_json ss = no_row
  answer bad_json ss = no_row
  answer bad_unicode ss = no_row

  module _ ⦃f : Float F⦄ (hash_token : String → String) where
    unfoldable pub step : Event F → World F → World F
    unfolding answer
    step (request q) w = record w { db = serve hash_token q w.db }
    step (message i down) w = record w {
      gateway =
          on_message (record i { db = if down then db_error else answer i.decoded w.db.sensors })
            w.gateway;
    }

    unfoldable pub run : List (Event F) → World F → World F
    run [] w = w
    run (e ∷ es) w = run es (step e w)

  -- The key of a message is the area of its sensor's row, and an area that exists.
  pub record IsPlaced (db : Database F) (sent : String × Payload F) : Type 0 where
    pub registered : area_of db.sensors sent.1.sensor_id ≡ some sent.0
    pub existing : area_exists sent.0 db ≡ true
    pub claimed : sent.1.area_id ≡ sent.0

  module _ ⦃f : Float F⦄ where
    pub record IsSound (w : World F) : Type 0 where
      pub linked : IsLinked w.db
      pub safe : IsSafe (area_of w.db.sensors) w.gateway

    answer-IsHonest :
        (d : Decoded F) (ss : List Sensor) (down : Bool)
        → Distinct same_sensor ss
        → IsHonest (area_of ss) d (if down then db_error else answer d ss)
    unfolding answer fetch_from_db
    answer-IsHonest (json p) ss true h = λ area got. ground (arith, got)
    answer-IsHonest (json p) ss false h = λ area got. query-honest p.sensor_id area ss h got
    answer-IsHonest other_json ss down h = tt
    answer-IsHonest bad_json ss down h = tt
    answer-IsHonest bad_unicode ss down h = tt

  module _ ⦃f : Float F⦄ (hash_token : String → String) where
    area_of-serve :
        (q : Request F) (db : Database F) (id area : String)
        → area_of db.sensors id ≡ some area
        → area_of (serve hash_token q db).sensors id ≡ some area
    area_of-serve q db id area h =
        serve-keeps hash_token (λ ss. area_of ss id ≡ some area)
          (λ ss new _ found. area_of-append id area ss new found)
          (λ ss id' now found. rw (area_of-updated id ss id' now) found) q db h

    step-IsSound : (e : Event F) (w : World F) → IsSound w → IsSound (step hash_token e w)
    unfolding step
    step-IsSound (request q) w h = record {
      linked = serve-IsLinked hash_token q w.db h.linked;
      safe = keep-IsSafe _ _ (area_of-serve q w.db) w.gateway h.safe;
    }
    step-IsSound (message i down) w h = record {
      linked = h.linked;
      safe =
          on_message-IsSafe (area_of w.db.sensors)
            (record i { db = if down then db_error else answer i.decoded w.db.sensors }) w.gateway
            (answer-IsHonest i.decoded w.db.sensors down h.linked.sensors) h.safe;
    }

    run-IsSound : (es : List (Event F)) (w : World F) → IsSound w → IsSound (run hash_token es w)
    unfolding run
    run-IsSound [] w h = h
    run-IsSound (e ∷ es) w h = run-IsSound es (step hash_token e w) (step-IsSound e w h)

    IsBinding-IsPlaced :
        (db : Database F) (sent : String × Payload F)
        → IsLinked db
        → IsBinding (area_of db.sensors) sent
        → IsPlaced db sent
    IsBinding-IsPlaced db sent linked h = record {
      registered = h.bound;
      existing =
          area_of-area_exists sent.1.sensor_id sent.0 db db.sensors linked.areas_known h.bound;
      claimed = h.claimed;
    }

    -- From tables with distinct keys and known references and a gateway with an empty cache, through
    -- any order of requests to the geo service and messages to the gateway, with the database down for
    -- some of them: every message sent claims the area that is its key, this area exists, and it is the
    -- area that its sensor's row has in the end.
    pub run-IsPlaced :
        (es : List (Event F)) (db : Database F) (ttl : ℕ)
        → IsLinked db
        → let end =
            run hash_token es
              (record { db = db; gateway = new_gateway (record { ttl = ttl; store = [] }) }) in
          All (IsPlaced end.db) end.gateway.sent
    run-IsPlaced es db ttl linked =
        let start : World F = record {
          db = db;
          gateway = new_gateway (record { ttl = ttl; store = [] });
        } in
        let sound =
          run-IsSound es start
            (record { linked = linked; safe = new_gateway-IsSafe (area_of db.sensors) ttl }) in
        All-weaken _ _ _ (λ sent h. IsBinding-IsPlaced _ sent sound.linked h) sound.safe.binding
