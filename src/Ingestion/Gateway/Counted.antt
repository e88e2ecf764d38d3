-- ===== src/Ingestion/Gateway/Counted.antt =====
-- The gateway's metrics account for every message but those that are no Unicode text.
use flood_monitoring_and_man.Common.{
  ℕ, suc, ◌+◌, List, [], ◌∷◌, Option, none, some, ◌≡◌, refl, arith, length, length-append, subst,
  string_eq, String,
}
use flood_monitoring_and_man.Common.Float.{Float}
use flood_monitoring_and_man.Wire.Validation.{validate_envelope, TelemetryEnvelope, dump}
use flood_monitoring_and_man.Ingestion.SensorCache.{SensorCache, get_area_id}
use flood_monitoring_and_man.Ingestion.Gateway.{
  Decoded, json, other_json, bad_json, bad_unicode, Incoming, Gateway, new_gateway, produce,
  forward, validated, process, on_message, on_messages,
}

-- The sum of the counters of outcomes.
abbrev pub outcomes : {F : Type 0} → Gateway F → ℕ
outcomes g = g.accepted + g.schema_invalid + g.unknown_sensor + g.area_mismatch + g.produce_errors

abbrev lost : {F : Type 0} → Decoded F → ℕ
lost (json payload) = 0
lost other_json = 0
lost bad_json = 0
lost bad_unicode = 1

abbrev pub undecodable : {F : Type 0} → List (Incoming F) → ℕ
undecodable [] = 0
undecodable (i ∷ rest) = lost i.decoded + undecodable rest

pub record IsCounted {F : Type 0} (unicode_errors : ℕ) (g : Gateway F) : Type 0 where
  pub every_message : g.received ≡ outcomes g + unicode_errors
  pub accepted_are_sent : g.accepted ≡ length g.sent

module _ {F : Type 0} where
  forward-outcomes :
      (e : TelemetryEnvelope F) (area : Option String) (i : Incoming F) (g : Gateway F)
      → (outcomes (forward e area i g) ≡ suc (outcomes g))
        × ((forward e area i g).received ≡ g.received)
  unfolding forward produce
  forward-outcomes e none i g = ground arith
  forward-outcomes e (some area) i g = ground arith

  forward-sent :
      (e : TelemetryEnvelope F) (area : Option String) (i : Incoming F) (g : Gateway F)
      → g.accepted ≡ length g.sent
      → (forward e area i g).accepted ≡ length (forward e area i g).sent
  unfolding forward produce
  forward-sent e none i g h = h
  forward-sent e (some area) i g h = ground (
    arith,
    length-append g.sent ((area, dump (record { envelope = e; ingested_at = i.ingested_at })) ∷ []),
  )

module _ {F : Type 0} ⦃f : Float F⦄ where
  validated-IsCounted :
      (n : ℕ) (e : Option (TelemetryEnvelope F)) (i : Incoming F) (g : Gateway F)
      → outcomes g + suc n ≡ g.received
      → g.accepted ≡ length g.sent
      → IsCounted n (validated e i g)
  unfolding validated
  validated-IsCounted n none i g h k = record { every_message = omega arith; accepted_are_sent = k }
  validated-IsCounted n (some e) i g h k =
      let answer = get_area_id e.sensor_id i.now i.made_at i.db g.cache in
      let g' : Gateway F = record g { cache = answer.0 } in
      let facts = forward-outcomes e answer.1 i g' in
      record {
        every_message = omega (arith, facts.0, facts.1);
        accepted_are_sent = forward-sent e answer.1 i g' k;
      }

  process-IsCounted :
      (n : ℕ) (d : Decoded F) (i : Incoming F) (g : Gateway F)
      → outcomes g + suc n ≡ g.received
      → g.accepted ≡ length g.sent
      → IsCounted (lost d + n) (process d i g)
  unfolding process
  process-IsCounted n (json payload) i g h k =
      let counted = validated-IsCounted n (validate_envelope payload) i g h k in
      record {
        every_message = omega (arith, counted.every_message);
        accepted_are_sent = counted.accepted_are_sent;
      }
  process-IsCounted n other_json i g h k = record {
    every_message = omega arith;
    accepted_are_sent = k;
  }
  process-IsCounted n bad_json i g h k = record {
    every_message = omega arith;
    accepted_are_sent = k;
  }
  process-IsCounted n bad_unicode i g h k = record {
    every_message = omega arith;
    accepted_are_sent = k;
  }

  on_messages-IsCounted :
      (n : ℕ) (is : List (Incoming F)) (g : Gateway F)
      → IsCounted n g
      → IsCounted (undecodable is + n) (on_messages is g)
  unfolding on_messages on_message
  on_messages-IsCounted n [] g h = record {
    every_message = omega (arith, h.every_message);
    accepted_are_sent = h.accepted_are_sent;
  }
  on_messages-IsCounted n (i ∷ rest) g h =
      let next =
        process-IsCounted n i.decoded i (record g { received = suc g.received })
          (omega (arith, h.every_message)) h.accepted_are_sent in
      let order : undecodable rest + (lost i.decoded + n) ≡ undecodable (i ∷ rest) + n =
        omega arith in
      subst (λ m. IsCounted m (on_messages (i ∷ rest) g)) order
        (on_messages-IsCounted (lost i.decoded + n) rest (on_message i g) next)

  -- After any messages, whatever the database and the broker answered, the received ones are the sum
  -- of the accepted, the rejected of each reason, the failed to send, and those whose bytes are no
  -- Unicode text, which no counter but the first has seen; and the accepted are those that were sent.
  pub on_messages-IsCounted_from_start :
      (is : List (Incoming F)) (cache : SensorCache)
      → IsCounted (undecodable is) (on_messages is (new_gateway cache))
  on_messages-IsCounted_from_start is cache =
      subst (λ m. IsCounted m (on_messages is (new_gateway cache))) (omega arith)
        (on_messages-IsCounted 0 is (new_gateway cache)
          (record { every_message = refl; accepted_are_sent = refl }))
