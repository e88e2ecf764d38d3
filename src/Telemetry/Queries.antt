-- ===== src/Telemetry/Queries.antt =====
-- The endpoints of services/telemetry-service/src/telemetry_service/api.py that read telemetry. `le`
-- compares instants; `order_by` is what an ORDER BY makes of the rows. A row is what
-- `TelemetryPoint` shows of it.
pub mod Intervals
pub mod Fallback
use flood_monitoring_and_man.Common.{
  ℕ, String, List, Option, none, some, Bool, true, not, ◌&&◌, ◌||◌, ◌==◌, string_eq, leb, take,
  keep_if, first, if◌then◌else◌,
}
use flood_monitoring_and_man.Common.Float.{Float}
use flood_monitoring_and_man.Wire.Validation.{TelemetryMessage}
use flood_monitoring_and_man.Auth.Api.{Reply, ok, http_error}
use flood_monitoring_and_man.Telemetry.Rows.{DateTimes, Row, row}
use flood_monitoring_and_man.Telemetry.Consumer.{Raw, parse}

module _ {F D : Type 0} (le : D → D → Bool) where
  -- The WHERE clause: the end is not in the window.
  abbrev pub in_window : String → D → D → Row F D → Bool
  in_window area start end r = (r.area_id == area) && (le start r.ts && not (le end r.ts))

  -- The framework answers 422 for a limit that is out of bounds, before the endpoint is called.
  unfoldable pub get_area_telemetry :
      (List (Row F D) → List (Row F D))
      → String
      → D
      → D
      → ℕ
      → List (Row F D)
      → Reply (List (Row F D))
  get_area_telemetry order_by area start end limit rows =
      if not (leb 1 limit && leb limit 10000)
      then http_error 422
      else if le end start
      then http_error 422
      else ok (take limit (order_by (keep_if (in_window area start end) rows)))

-- GET: an exception, a key that is not there, or what `json.loads` makes of a value.
pub data RedisAnswer (F : Type 0) : Type 0 where
  redis_error : RedisAnswer F
  missing : RedisAnswer F
  stored : Raw F → RedisAnswer F

module _ {F D : Type 0} ⦃t : DateTimes D⦄ where
  -- The projection; `none` is a ValueError of one of the two times.
  abbrev pub point_of : TelemetryMessage F → Option (Row F D)
  point_of msg = elim (t.fromisoformat msg.ts) [
    | none ↦ none
    | some ts ↦ elim (t.fromisoformat msg.ingested_at) [
      | none ↦ none
      | some at ↦ some (row ts msg at)
    ]
  ]

module _ {F D : Type 0} where
  -- The cold path: the first row of ORDER BY ts DESC.
  abbrev pub from_database :
      (List (Row F D) → List (Row F D)) → String → List (Row F D) → Reply (Row F D)
  from_database order_by sensor rows =
      elim (first (λ r. true) (order_by (keep_if (λ r. r.sensor_id == sensor) rows))) [
        | none ↦ http_error 404
        | some r ↦ ok r
      ]

  abbrev pub point_or : Option (Row F D) → Reply (Row F D) → Reply (Row F D)
  point_or (some point) cold = ok point
  point_or none cold = cold

module _ {F D : Type 0} ⦃f : Float F⦄ ⦃t : DateTimes D⦄ where
  -- The hot path; `none` goes on to the database, whether there is no key or an exception.
  unfoldable pub from_redis : RedisAnswer F → Option (Row F D)
  from_redis redis_error = none
  from_redis missing = none
  from_redis (stored raw) = elim (parse raw) [ none ↦ none | some msg ↦ point_of msg ]

  unfoldable pub get_sensor_latest :
      (List (Row F D) → List (Row F D)) → String → RedisAnswer F → List (Row F D) → Reply (Row F D)
  unfolding from_redis
  get_sensor_latest order_by sensor answer rows =
      point_or (from_redis answer) (from_database order_by sensor rows)
