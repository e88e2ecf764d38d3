-- ===== src/Wire/Tests.antt =====
-- The round trip of a message at a concrete input.
use flood_monitoring_and_man.Common.{some, ◌≡◌, refl, string_eq}
use flood_monitoring_and_man.Samples.{hundredths, payload, envelope}
use flood_monitoring_and_man.Wire.Parameters.{model_dump}
use flood_monitoring_and_man.Wire.Validation.{
  validate_envelope, validate_fields, validate_message, parse_mode, parse_status, fields_valid,
  all_none, dump,
}
use flood_monitoring_and_man.Wire.RoundTrip.{validate_message-dump}

validate_message-dump_example :
    validate_message (dump (record { envelope = envelope; ingested_at = "u" }))
    ≡ some (record { envelope = envelope; ingested_at = "u" })
unfolding validate_envelope validate_fields parse_mode parse_status fields_valid all_none model_dump
validate_message-dump_example = validate_message-dump payload envelope "u" refl
