-- ===== src/Ingestion/Gateway.antt =====
-- `Gateway` of services/ingestion-gateway/src/ingestion_gateway/gateway.py. Messages are processed one
-- after another, though the coroutines of two messages may take turns where one waits for the database
-- or the broker; the database's answer, the clock and the broker's answer come with each message.
pub mod Counted
pub mod Bound
use flood_monitoring_and_man.Common.{
  ℕ, suc, String, List, [], ◌∷◌, ◌++◌, Option, none, some, Bool, true, false, ◌==◌, string_eq,
  if◌then◌else◌,
}
use flood_monitoring_and_man.Common.Float.{Float}
use flood_monitoring_and_man.Wire.Validation.{
  Payload, TelemetryEnvelope, TelemetryMessage, validate_envelope, dump,
}
use flood_monitoring_and_man.Ingestion.SensorCache.{SensorCache, DbResult, get_area_id}

-- What `json.loads` makes of a payload. `other_json` is a value without the envelope's fields and
-- types; `bad_unicode` is a UnicodeDecodeError, which is no JSONDecodeError.
pub data Decoded (F : Type 0) : Type 0 where
  json : Payload F → Decoded F
  other_json bad_json bad_unicode : Decoded F

pub record Incoming (F : Type 0) : Type 0 where
  pub decoded : Decoded F
  pub now : ℕ
  pub made_at : ℕ
  pub db : DbResult
  pub ingested_at : String
  pub produced : Bool

pub record Gateway (F : Type 0) : Type 0 where
  pub cache : SensorCache
  -- Key and value of each message the broker took.
  pub sent : List (String × Payload F)
  pub received : ℕ
  pub accepted : ℕ
  pub schema_invalid : ℕ
  pub unknown_sensor : ℕ
  pub area_mismatch : ℕ
  pub produce_errors : ℕ

module _ {F : Type 0} where
  abbrev pub new_gateway : SensorCache → Gateway F
  new_gateway cache = record {
    cache = cache;
    sent = [];
    received = 0;
    accepted = 0;
    schema_invalid = 0;
    unknown_sensor = 0;
    area_mismatch = 0;
    produce_errors = 0;
  }

  -- Steps 6 and 7: the stamp, and the send.
  unfoldable pub produce : TelemetryEnvelope F → String → String → Bool → Gateway F → Gateway F
  produce envelope area ingested_at produced g =
      let message : TelemetryMessage F = record {
        envelope = envelope;
        ingested_at = ingested_at;
      } in
      if produced
      then record g { sent = g.sent ++ (area, dump message) ∷ []; accepted = suc g.accepted }
      else record g { produce_errors = suc g.produce_errors }

  -- Steps 4 and 5, on the answer of the cache.
  unfoldable pub forward : TelemetryEnvelope F → Option String → Incoming F → Gateway F → Gateway F
  forward envelope none i g = record g { unknown_sensor = suc g.unknown_sensor }
  forward envelope (some cached_area_id) i g =
      if envelope.area_id == cached_area_id
      then produce envelope cached_area_id i.ingested_at i.produced g
      else record g { area_mismatch = suc g.area_mismatch }

module _ {F : Type 0} ⦃f : Float F⦄ where
  -- Steps 2 and 3.
  unfoldable pub validated : Option (TelemetryEnvelope F) → Incoming F → Gateway F → Gateway F
  validated none i g = record g { schema_invalid = suc g.schema_invalid }
  validated (some envelope) i g =
      let (cache, area) = get_area_id envelope.sensor_id i.now i.made_at i.db g.cache in
      forward envelope area i (record g { cache = cache })

  -- `_process`; a UnicodeDecodeError leaves it, and its future, which nobody awaits, keeps it.
  unfoldable pub process : Decoded F → Incoming F → Gateway F → Gateway F
  process (json payload) i g = validated (validate_envelope payload) i g
  process other_json i g = record g { schema_invalid = suc g.schema_invalid }
  process bad_json i g = record g { schema_invalid = suc g.schema_invalid }
  process bad_unicode i g = g

  unfoldable pub on_message : Incoming F → Gateway F → Gateway F
  on_message i g = process i.decoded i (record g { received = suc g.received })

  unfoldable pub on_messages : List (Incoming F) → Gateway F → Gateway F
  on_messages [] g = g
  on_messages (i ∷ rest) g = on_messages rest (on_message i g)
