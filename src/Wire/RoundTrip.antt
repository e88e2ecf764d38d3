-- ===== src/Wire/RoundTrip.antt =====
-- What the gateway forwards, its consumers accept and read back unchanged.
use flood_monitoring_and_man.Common.{
  String, some, Bool, true, false, ◌≡◌, refl, arith, string_eq, eq_iff,
}
use flood_monitoring_and_man.Common.Float.{Float}
use flood_monitoring_and_man.Wire.Parameters.{model_dump}
use flood_monitoring_and_man.Wire.Validation.{
  Mode, nominal, critical, Payload, TelemetryEnvelope, TelemetryMessage, parse_mode, parse_status,
  fields_valid, all_none, validate_fields, validate_envelope, validate_message, mode_text,
  status_number, dump, dump_envelope,
}

parse_mode-mode_text : (m : Mode) → parse_mode (mode_text m) ≡ some m
unfolding parse_mode
parse_mode-mode_text nominal = refl
parse_mode-mode_text critical = refl

parse_status-status_number : (s : Bool) → parse_status (status_number s) ≡ some s
unfolding parse_status
parse_status-status_number true = refl
parse_status-status_number false = refl

module _ {F : Type 0} ⦃f : Float F⦄ where
  -- An accepted payload has its fields in range and at least one measurement, and the envelope has
  -- its ids, its time and its measurements.
  pub record IsAccepted (p : Payload F) (e : TelemetryEnvelope F) : Type 0 where
    pub in_range : fields_valid e.measurements ≡ true
    pub measured : all_none (model_dump e.measurements) ≡ false
    pub same_measurements : e.measurements ≡ p.measurements
    pub same_sensor : e.sensor_id ≡ p.sensor_id
    pub same_area : e.area_id ≡ p.area_id
    pub same_ts : e.ts ≡ p.ts

  validate_fields-measurements :
      (p : Payload F) (e : TelemetryEnvelope F)
      → validate_fields p ≡ some e
      → (fields_valid p.measurements ≡ true)
        × (e.measurements ≡ p.measurements)
        × (e.sensor_id ≡ p.sensor_id)
        × (e.area_id ≡ p.area_id)
        × (e.ts ≡ p.ts)
  unfolding validate_fields
  validate_fields-measurements p e h = ground arith

  -- An accepted payload has every value in range and at least one value, and the envelope has its ids,
  -- its time and its values.
  pub validate_envelope-IsAccepted :
      (p : Payload F) (e : TelemetryEnvelope F) → validate_envelope p ≡ some e → IsAccepted p e
  unfolding validate_envelope
  validate_envelope-IsAccepted p e h =
      let fields : validate_fields p ≡ some e = ground arith in
      let facts = validate_fields-measurements p e fields in
      record {
        in_range = ground (arith, facts.0, facts.1);
        measured = ground (arith, facts.1);
        same_measurements = facts.1;
        same_sensor = facts.2;
        same_area = facts.3;
        same_ts = facts.4;
      }

  -- A message that was once accepted is accepted again, and is the same message.
  pub validate_message-dump_again :
      (p : Payload F) (m : TelemetryMessage F)
      → validate_message p ≡ some m
      → validate_message (dump m) ≡ some m
  unfolding validate_message validate_fields dump
  validate_message-dump_again p m h =
      let fields : validate_fields p ≡ some m.envelope = ground (arith, h) in
      ground (
        arith,
        (validate_fields-measurements p m.envelope fields).0,
        (validate_fields-measurements p m.envelope fields).1,
        parse_mode-mode_text m.mode,
        parse_status-status_number m.status,
        eq_iff "1.0.0" "1.0.0",
      )

  -- A message that is made of an accepted envelope and any time of ingestion, once encoded, is
  -- accepted by the consumers and gives the same message.
  pub validate_message-dump :
      (p : Payload F) (e : TelemetryEnvelope F) (at : String)
      → validate_envelope p ≡ some e
      → validate_message (dump (record { envelope = e; ingested_at = at }))
        ≡ some (record { envelope = e; ingested_at = at })
  unfolding validate_message validate_fields dump
  validate_message-dump p e at h = ground (
    arith,
    (validate_envelope-IsAccepted p e h).in_range,
    parse_mode-mode_text e.mode,
    parse_status-status_number e.status,
    eq_iff "1.0.0" "1.0.0",
  )

  pub validate_envelope-dump :
      (e : TelemetryEnvelope F)
      → fields_valid e.measurements ≡ true
      → all_none (model_dump e.measurements) ≡ false
      → validate_envelope (dump_envelope e) ≡ some e
  unfolding validate_envelope validate_fields dump_envelope
  validate_envelope-dump e valid measured = ground (
    arith,
    parse_mode-mode_text e.mode,
    parse_status-status_number e.status,
    eq_iff "1.0.0" "1.0.0",
  )
