-- ===== src/RuleEngine/Watchdog/Unnoticed.antt =====
-- What the watchdog notices where the telemetry service is the last to write the key of a sensor.
use flood_monitoring_and_man.Common.{
  ℕ, ◌+◌, ◌≤◌, ◌<◌, String, List, ◌∷◌, Option, none, some, false, ltb, ◌==◌, string_eq, ◌≡◌, refl,
  arith, Bool-cases, inl, inr,
}
use flood_monitoring_and_man.Common.Expiry.{Expiring, ExpiringLaws, at_time}
use flood_monitoring_and_man.Common.Float.{Float}
use flood_monitoring_and_man.Common.HotState.{HotState}
use flood_monitoring_and_man.Common.Redis.{Redis}
use flood_monitoring_and_man.Wire.Validation.{TelemetryMessage}
use flood_monitoring_and_man.RuleEngine.Models.{Draw}
use flood_monitoring_and_man.RuleEngine.Consumer.{sensor_silence_timeout_s}
use flood_monitoring_and_man.RuleEngine.Watchdog.{Scan, report, scan}
use flood_monitoring_and_man.Telemetry.Consumer.{
  HotAnswer, both_set, sensor_set, none_set, Pipeline, update,
}
use flood_monitoring_and_man.Telemetry.Consumer.Latest.{IsTaken}
use flood_monitoring_and_man.RuleEngine.Watchdog.Timing.{reload, found_at, find_silent-young}

module _ {F D H G : Type 0} ⦃f : Float F⦄ ⦃a : HotState G String⦄
    (e : Expiring H (TelemetryMessage F)) where
  -- The hot state after the telemetry service has handled a message at an instant.
  abbrev pub after_telemetry : ℕ → ℕ → TelemetryMessage F → HotAnswer → Pipeline F D H G → H
  after_telemetry ttl_s at msg hot p = (update ⦃h = at_time e at⦄ ttl_s msg hot p).sensors

  after_telemetry-get_at :
      (laws : ExpiringLaws e) (ttl_s at t : ℕ) (msg : TelemetryMessage F) (hot : HotAnswer)
      (p : Pipeline F D H G)
      → IsTaken hot
      → at ≤ t
      → t < at + ttl_s
      → e.get_at t (after_telemetry ttl_s at msg hot p) msg.sensor_id ≡ some msg
  unfolding update
  after_telemetry-get_at laws ttl_s at t msg both_set p taken before in_time =
      laws.get-set_at at t msg.sensor_id msg ttl_s p.sensors before in_time
  after_telemetry-get_at laws ttl_s at t msg sensor_set p taken before in_time =
      laws.get-set_at at t msg.sensor_id msg ttl_s p.sensors before in_time
  after_telemetry-get_at laws ttl_s at t msg none_set p taken before in_time = absurd taken

  after_telemetry-expired :
      (laws : ExpiringLaws e) (ttl_s at t : ℕ) (msg : TelemetryMessage F) (hot : HotAnswer)
      (p : Pipeline F D H G)
      → IsTaken hot
      → at + ttl_s ≤ t
      → e.get_at t (after_telemetry ttl_s at msg hot p) msg.sensor_id ≡ none
  unfolding update
  after_telemetry-expired laws ttl_s at t msg both_set p taken over =
      laws.get-expired at t msg.sensor_id msg ttl_s p.sensors over
  after_telemetry-expired laws ttl_s at t msg sensor_set p taken over =
      laws.get-expired at t msg.sensor_id msg ttl_s p.sensors over
  after_telemetry-expired laws ttl_s at t msg none_set p taken over = absurd taken

module _ {F D H G : Type 0} ⦃f : Float F⦄ ⦃a : HotState G String⦄
    (e : Expiring H (TelemetryMessage F)) (laws : ExpiringLaws e)
    (parse_time : String → Option ℕ) where
  found_at-after_telemetry :
      (ttl_s at ingested t : ℕ) (msg : TelemetryMessage F) (hot : HotAnswer) (p : Pipeline F D H G)
      → (msg.ingested_at == "") ≡ false
      → parse_time msg.ingested_at ≡ some ingested
      → IsTaken hot
      → at + ttl_s ≤ ingested + sensor_silence_timeout_s
      → at ≤ t
      → found_at e parse_time t (after_telemetry e ttl_s at msg hot p) msg.sensor_id ≡ none
  found_at-after_telemetry ttl_s at ingested t msg hot p stamped parsed taken short before =
      elim (Bool-cases (ltb t (at + ttl_s))) [
        | inl kept ↦
            rw
              (after_telemetry-get_at e laws ttl_s at t msg hot p taken before
                (ground (arith, kept)))
              (find_silent-young parse_time sensor_silence_timeout_s msg t ingested stamped parsed
                (ground (arith, kept)))
        | inr gone ↦
            rw (after_telemetry-expired e laws ttl_s at t msg hot p taken (ground (arith, gone)))
              refl
      ]

module _ {F R H : Type 0} ⦃d : Redis R⦄ (e : Expiring H (TelemetryMessage F))
    (parse_time : String → Option ℕ) (draw : ℕ → Draw) where
  -- A scan at an instant, over the keys that the server returned.
  abbrev pub scan_at : ℕ → H → List String → Scan R → Scan R
  scan_at t h = scan ⦃s = at_time e t⦄ reload parse_time sensor_silence_timeout_s t draw h

module _ {F R D H G : Type 0} ⦃f : Float F⦄ ⦃d : Redis R⦄ ⦃a : HotState G String⦄
    (e : Expiring H (TelemetryMessage F)) (laws : ExpiringLaws e) (parse_time : String → Option ℕ)
    (draw : ℕ → Draw) where
  -- Where the telemetry service is the last to write the key of a sensor, and its expiry is over at
  -- the latest when the reading would count as silent, no later scan notices that the sensor has
  -- stopped: each does what it would do without the key of the sensor.
  pub scan-after_telemetry :
      (ttl_s at ingested t : ℕ) (msg : TelemetryMessage F) (hot : HotAnswer) (p : Pipeline F D H G)
      (keys : List String) (c : Scan R)
      → (msg.ingested_at == "") ≡ false
      → parse_time msg.ingested_at ≡ some ingested
      → IsTaken hot
      → at + ttl_s ≤ ingested + sensor_silence_timeout_s
      → at ≤ t
      → scan_at e parse_time draw t (after_telemetry e ttl_s at msg hot p) (msg.sensor_id ∷ keys) c
        ≡ scan_at e parse_time draw t (after_telemetry e ttl_s at msg hot p) keys c
  unfolding scan report
  scan-after_telemetry ttl_s at ingested t msg hot p keys c stamped parsed taken short before =
      rw
        (found_at-after_telemetry e laws parse_time ttl_s at ingested t msg hot p stamped parsed
          taken short before)
        refl
