-- ===== src/Geo/Tests.antt =====
-- The theorems about the geo service at concrete inputs.
use flood_monitoring_and_man.Common.{
  leb, not, ◌≤◌, Bool, if◌then◌else◌, arith, ℕ, String, List, [], ◌∷◌, some, none, true, false, ◌≡◌,
  refl, string_eq, All,
}
use flood_monitoring_and_man.Samples.{hundredths, payload}
use flood_monitoring_and_man.RuleEngine.Models.{AreaThreshold}
use flood_monitoring_and_man.Auth.Api.{http_error}
use flood_monitoring_and_man.Ingestion.Gateway.{Incoming, json, new_gateway}
use flood_monitoring_and_man.Ingestion.SensorCache.{no_row}
use flood_monitoring_and_man.Geo.Api.{
  Fresh, SensorCreated, AreaThresholdUpsert, Request, post_region, post_city, post_area,
  post_sensor, delete_sensor, put_threshold, decommission_sensor, get_sensor_area_binding,
  serve_all,
}
use flood_monitoring_and_man.Geo.Samples.{tables, tables-IsLinked}
use flood_monitoring_and_man.Geo.Hierarchy.{IsLinked, serve_all-IsLinked}
use flood_monitoring_and_man.Geo.Retirement.{decommission_sensor-final}
use flood_monitoring_and_man.Geo.Limits.{limits_of}
use flood_monitoring_and_man.Geo.Tables.{Database}
use flood_monitoring_and_man.Geo.Effect.{answer_at, after_calls, get_thresholds-in_effect}
use flood_monitoring_and_man.RuleEngine.ThresholdCache.{get_thresholds}
use flood_monitoring_and_man.Geo.Placement.{
  Event, request, message, World, IsPlaced, run, run-IsPlaced,
}

abbrev fresh : String → Fresh
fresh uuid = record { uuid = uuid; now = 1; token = "t" }

abbrev hash_token : String → String
hash_token token = "h"

abbrev limits : AreaThresholdUpsert ℕ
limits = record {
  warning_lo = none;
  warning_hi = some 11;
  critical_lo = none;
  critical_hi = some 22;
}

-- Requests that are accepted, one whose name is taken, and one for a city that does not exist.
abbrev requests : List (Request ℕ)
requests =
    post_region "South" (fresh "r2")
    ∷ post_region "North" (fresh "r3")
    ∷ post_city "r2" "Port" (fresh "c2")
    ∷ post_area "c9" "Quay" "standard" (fresh "a3")
    ∷ post_area "c2" "Quay" "standard" (fresh "a2")
    ∷ post_sensor "a2" none (fresh "s2")
    ∷ delete_sensor "s2" (fresh "")
    ∷ put_threshold "a2" "rainfall_mm_h" limits
    ∷ []

serve_all-IsLinked_example : IsLinked (serve_all hash_token requests tables)
serve_all-IsLinked_example = serve_all-IsLinked hash_token requests tables tables-IsLinked

decommission_sensor-final_example :
    (get_sensor_area_binding "s"
        (serve_all hash_token requests (decommission_sensor "s" (fresh "") tables).0)
      ≡ http_error 404)
    × (decommission_sensor "s"
          (fresh "")
          (serve_all hash_token requests (decommission_sensor "s" (fresh "") tables).0)
        ≡ (
          serve_all hash_token requests (decommission_sensor "s" (fresh "") tables).0,
          http_error 404,
        ))
unfolding decommission_sensor
decommission_sensor-final_example =
    decommission_sensor-final hash_token "s" (fresh "") (fresh "") requests tables refl

abbrev created : SensorCreated
created = record {
  sensor = record {
    sensor_id = "s2";
    area_id = "a";
    label = none;
    token_hash = "h";
    decommissioned_at = none;
    created_at = 1;
  };
  token = "t";
}

abbrev from_sensor : Incoming ℕ
from_sensor = record {
  decoded = json payload;
  now = 1;
  made_at = 2;
  db = no_row;
  ingested_at = "u";
  produced = true;
}

-- A message, the sensor's end, and a message that the cache still answers.
abbrev some_events : List (Event ℕ)
some_events =
    message from_sensor false
    ∷ request (delete_sensor "s" (fresh ""))
    ∷ message from_sensor true
    ∷ []

abbrev final : World ℕ
final =
    run hash_token some_events
      (record { db = tables; gateway = new_gateway (record { ttl = 60; store = [] }) })

run-IsPlaced_example : All (IsPlaced final.db) final.gateway.sent
run-IsPlaced_example = run-IsPlaced hash_token some_events tables 60 tables-IsLinked

-- The limits for rain that the tables have.
abbrev rain : AreaThreshold ℕ
rain = record {
  area_id = "a";
  parameter = "rainfall_mm_h";
  warning_lo = none;
  warning_hi = some 10;
  critical_lo = none;
  critical_hi = some 20;
}

-- Until the instant 50 there are no tables and no service.
abbrev changing : ℕ → Database ℕ
changing t =
    if leb 50 t
    then tables
    else record { regions = []; cities = []; areas = []; sensors = []; thresholds = [] }

abbrev is_down : ℕ → Bool
is_down t = not (leb 50 t)

from_fifty : (t : ℕ) → 50 ≤ t → leb 50 t ≡ true
from_fifty t h = ground arith

get_thresholds-in_effect_example :
    (ts : List (AreaThreshold ℕ)) × ((get_thresholds "a" 120 121
        (answer_at (λ rows. rows) changing is_down 121 "a")
        (after_calls
          (λ rows. rows)
          changing
          is_down
          (record { area = "a"; now = 10; done_at = 11 } ∷ [])
          (record { ttl = 60; store = [] }))).1.thresholds
      ≡ some ts)
    × (limits_of "a" "rainfall_mm_h" ts ≡ some rain)
get_thresholds-in_effect_example =
    get_thresholds-in_effect (λ rows. rows) changing is_down (λ a p ts. refl) 50 "a" "rainfall_mm_h"
      rain (λ t h. rw (from_fifty t h) refl) (λ t h. rw (from_fifty t h) refl)
      (λ t h. rw (from_fifty t h) refl) 60 120 121
      (record { area = "a"; now = 10; done_at = 11 } ∷ []) (omega arith) (omega arith)
