-- ===== src/Telemetry/Queries/Fallback.antt =====
-- The latest reading of a sensor, behind the consumer that writes it: `TelemetryConsumer._handle` and
-- `get_sensor_latest` of services/telemetry-service/src/telemetry_service.
use flood_monitoring_and_man.Common.{
  ℕ, String, List, [], ◌∷◌, Option, none, some, ◌≡◌, refl, arith, string_eq, inl, inr, Option-cases,
  All,
}
use flood_monitoring_and_man.Common.Float.{Float}
use flood_monitoring_and_man.Common.HotState.{HotState, HotStateLaws}
use flood_monitoring_and_man.Wire.Validation.{TelemetryMessage, validate_message, dump}
use flood_monitoring_and_man.Wire.RoundTrip.{validate_message-dump_again}
use flood_monitoring_and_man.Telemetry.Rows.{DateTimes, Row}
use flood_monitoring_and_man.Telemetry.Consumer.{
  Raw, json, unreadable, parse, Delivery, Pipeline, consume,
}
use flood_monitoring_and_man.Telemetry.Consumer.Latest.{
  valid_messages, latest_of, IsSensorSet, get_latest-consume,
}
use flood_monitoring_and_man.Telemetry.Queries.{
  RedisAnswer, missing, stored, point_of, from_redis, from_database, point_or, get_sensor_latest,
}

-- What GET gives where `M` is a JSON text of a message.
abbrev pub answer_of : {F : Type 0} → Option (TelemetryMessage F) → RedisAnswer F
answer_of none = missing
answer_of (some m) = stored (json (dump m))

module _ {F : Type 0} ⦃f : Float F⦄ where
  abbrev IsReadable : TelemetryMessage F → Type 0
  IsReadable m = validate_message (dump m) ≡ some m

  parse-IsReadable : (raw : Raw F) (m : TelemetryMessage F) → parse raw ≡ some m → IsReadable m
  parse-IsReadable (json p) m valid = validate_message-dump_again p m valid
  parse-IsReadable unreadable m valid = ground (arith, valid)

  valid_messages-IsReadable : (ds : List (Delivery F)) → All IsReadable (valid_messages ds)
  valid_messages-IsReadable [] = tt
  valid_messages-IsReadable (d ∷ ds) = elim (Option-cases (parse d.raw)) [
    | inl invalid ↦ rw invalid (valid_messages-IsReadable ds)
    | inr (m, valid) ↦ rw valid (parse-IsReadable d.raw m valid, valid_messages-IsReadable ds)
  ]

  latest_of-IsReadable :
      (s : String) (m : TelemetryMessage F) (ms : List (TelemetryMessage F))
      (before : Option (TelemetryMessage F))
      → All IsReadable ms
      → ((m : TelemetryMessage F) → before ≡ some m → IsReadable m)
      → latest_of s before ms ≡ some m
      → IsReadable m
  latest_of-IsReadable s m [] before readable h found = h m found
  latest_of-IsReadable s m (x ∷ ms) before readable h found =
      latest_of-IsReadable s m ms _ readable.1 (λ m' last. ground (arith, last, readable.0, h m'))
        found

module _ {F D : Type 0} ⦃t : DateTimes D⦄ where
  abbrev pub point_of_latest : Option (TelemetryMessage F) → Option (Row F D)
  point_of_latest none = none
  point_of_latest (some m) = point_of m

from_redis-readable :
    {F D : Type 0} ⦃f : Float F⦄ ⦃t : DateTimes D⦄ (m : TelemetryMessage F)
    → IsReadable m
    → from_redis (answer_of (some m)) ≡ point_of {D = D} m
unfolding from_redis
from_redis-readable m readable = rw (from_redis, readable) refl

module _ {F D H G : Type 0} ⦃f : Float F⦄ ⦃t : DateTimes D⦄ ⦃h : HotState H (TelemetryMessage F)⦄
    ⦃a : HotState G String⦄ (ttl_s : ℕ) (order_by : List (Row F D) → List (Row F D)) where
  -- Where the sensor has no key before, Redis takes the SET of each sensor's key and no key expires:
  -- after any records, readable or not, the endpoint answers with the last valid message of the sensor;
  -- where there is none, or one of its two times is no time, with what the database has, or 404.
  pub get_sensor_latest-consume :
      (laws : HotStateLaws H (TelemetryMessage F)) (s : String) (ds : List (Delivery F))
      (p : Pipeline F D H G) (rows : List (Row F D))
      → h.get_latest p.sensors s ≡ none
      → All IsSensorSet ds
      → get_sensor_latest order_by s (answer_of (h.get_latest (consume ttl_s ds p).sensors s)) rows
        ≡ point_or
            (point_of_latest (latest_of s none (valid_messages ds)))
            (from_database order_by s rows)
  unfolding get_sensor_latest from_redis
  get_sensor_latest-consume laws s ds p rows unset taken =
      rw (get_latest-consume ttl_s laws s ds p taken, unset)
        (elim (Option-cases (latest_of s none (valid_messages ds))) [
          | inl nothing ↦ rw nothing refl
          | inr (m, found) ↦
              let readable =
                latest_of-IsReadable s m (valid_messages ds) none (valid_messages-IsReadable ds)
                  (λ m' none_before. ground (arith, none_before)) found in
              rw (found, from_redis-readable m readable) refl
        ])
