-- ===== src/RuleEngine/Watchdog/Timing.antt =====
-- When the watchdog notices a sensor that has stopped: `run` of services/rule-engine/src/rule_engine/
-- watchdog.py scans at intervals, while the key of the sensor expires. The key is written by the rule
-- engine and by services/telemetry-service/src/telemetry_service/hot_state.py, each with its own expiry.
use flood_monitoring_and_man.Common.{
  ℕ, ◌+◌, ◌≤◌, ◌<◌, String, List, ◌∷◌, Option, none, some, true, false, ltb, ◌==◌, string_eq, ◌≡◌,
  refl, arith,
}
use flood_monitoring_and_man.Common.Expiry.{Expiring}
use flood_monitoring_and_man.Wire.Parameters.{model_dump, present}
use flood_monitoring_and_man.Wire.Validation.{TelemetryMessage}
use flood_monitoring_and_man.RuleEngine.Consumer.{sensor_silence_timeout_s}
use flood_monitoring_and_man.RuleEngine.Watchdog.{
  Latest, Silent, truthy, str_or, names, inspect, find_silent, silent_since,
}

-- `json.loads(event.model_dump_json())`, of the keys that the watchdog reads.
unfoldable pub reload : {F : Type 0} → TelemetryMessage F → Option (Latest F)
unfolding model_dump
reload msg = some (record {
  sensor_id = some msg.sensor_id;
  area_id = some msg.area_id;
  ts = some msg.ts;
  ingested_at = some msg.ingested_at;
  measurements = model_dump msg.measurements;
})

module _ {F : Type 0} (parse_time : String → Option ℕ) (timeout : ℕ) where
  -- Not yet silent for longer than the timeout.
  pub find_silent-young :
      (msg : TelemetryMessage F) (t ingested : ℕ)
      → (msg.ingested_at == "") ≡ false
      → parse_time msg.ingested_at ≡ some ingested
      → t ≤ timeout + ingested
      → find_silent reload parse_time timeout t (some msg) ≡ none
  unfolding reload inspect
  find_silent-young msg t ingested stamped parsed young =
      let early : ltb (timeout + ingested) t ≡ false = ground arith in
      rw (find_silent, inspect, str_or, truthy, stamped, silent_since, parsed, early) refl

  -- Silent for longer than the timeout.
  pub find_silent-old :
      (msg : TelemetryMessage F) (t ingested : ℕ) (p : String) (ps : List String)
      → (msg.ingested_at == "") ≡ false
      → (msg.sensor_id == "") ≡ false
      → (msg.area_id == "") ≡ false
      → parse_time msg.ingested_at ≡ some ingested
      → names (present (model_dump msg.measurements)) ≡ p ∷ ps
      → timeout + ingested < t
      → find_silent reload parse_time timeout t (some msg)
        ≡ some (record {
          sensor = msg.sensor_id;
          area = msg.area_id;
          params = p ∷ ps;
          at = msg.ingested_at;
        })
  unfolding reload inspect
  find_silent-old msg t ingested p ps stamped named placed parsed measured old =
      let late : ltb (timeout + ingested) t ≡ true = ground arith in
      rw
        (
          find_silent, inspect, str_or, truthy, stamped, silent_since, parsed, late, named, placed,
          measured,
        )
        refl

module _ {F H : Type 0} (e : Expiring H (TelemetryMessage F)) (parse_time : String → Option ℕ) where
  -- What a scan finds under the key of a sensor.
  abbrev pub found_at : ℕ → H → String → Option Silent
  found_at t h sensor =
      find_silent reload parse_time sensor_silence_timeout_s t (e.get_at t h sensor)
