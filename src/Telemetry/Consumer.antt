-- ===== src/Telemetry/Consumer.antt =====
-- `TelemetryConsumer` of services/telemetry-service/src/telemetry_service/consumer.py and
-- `HotStateUpdater.update` of hot_state.py. The records come one after another, each with the answer of
-- the Redis server; the flush of the writer is in Writer.
pub mod Latest
use flood_monitoring_and_man.Common.{ℕ, suc, String, List, [], ◌∷◌, Option, none, some, Bool}
use flood_monitoring_and_man.Common.Float.{Float}
use flood_monitoring_and_man.Common.HotState.{HotState}
use flood_monitoring_and_man.Wire.Validation.{Payload, TelemetryMessage, validate_message}
use flood_monitoring_and_man.Telemetry.Writer.{Writer, enqueue}

-- What `json.loads` makes of a record. `unreadable` is a JSONDecodeError, a UnicodeDecodeError, or a
-- value without the message's fields and types: `_handle` catches all three.
pub data Raw (F : Type 0) : Type 0 where
  json : Payload F → Raw F
  unreadable : Raw F

-- How far the pipeline of two SETs came, which is no transaction: an exception follows the last two.
pub data HotAnswer : Type 0 where
  both_set sensor_set none_set : HotAnswer

pub record Delivery (F : Type 0) : Type 0 where
  pub raw : Raw F
  pub hot : HotAnswer

-- `sensors` has the keys `sensor:{sensor_id}:latest`, `areas` the keys `area:{area_id}:latest_ts`.
pub record Pipeline (F D H G : Type 0) : Type 0 where
  pub writer : Writer F D
  pub sensors : H
  pub areas : G
  pub consumed : ℕ
  pub parse_errors : ℕ
  pub hot_updates : ℕ

abbrev pub parse : {F : Type 0} ⦃f : Float F⦄ → Raw F → Option (TelemetryMessage F)
parse (json payload) = validate_message payload
parse unreadable = none

module _ {F D H G : Type 0} ⦃f : Float F⦄ ⦃h : HotState H (TelemetryMessage F)⦄
    ⦃a : HotState G String⦄ (ttl_s : ℕ) where
  unfoldable pub update : TelemetryMessage F → HotAnswer → Pipeline F D H G → Pipeline F D H G
  update msg both_set p = record p {
    sensors = h.set_latest msg.sensor_id msg ttl_s p.sensors;
    areas = a.set_latest msg.area_id msg.ts ttl_s p.areas;
    hot_updates = suc p.hot_updates;
  }
  update msg sensor_set p = record p { sensors = h.set_latest msg.sensor_id msg ttl_s p.sensors }
  update msg none_set p = p

  -- `_handle` after the parsing: the writer first, then the hot state, whose exceptions are logged.
  unfoldable pub fan_out :
      Option (TelemetryMessage F) → HotAnswer → Pipeline F D H G → Pipeline F D H G
  unfolding update
  fan_out none hot p = record p { parse_errors = suc p.parse_errors }
  fan_out (some msg) hot p = update msg hot (record p { writer = enqueue msg p.writer })

  unfoldable pub handle : Delivery F → Pipeline F D H G → Pipeline F D H G
  unfolding fan_out
  handle d p = fan_out (parse d.raw) d.hot p

  -- The loop of `start`.
  unfoldable pub consume : List (Delivery F) → Pipeline F D H G → Pipeline F D H G
  consume [] p = p
  consume (d ∷ ds) p = consume ds (handle d (record p { consumed = suc p.consumed }))
