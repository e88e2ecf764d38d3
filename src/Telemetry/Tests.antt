-- ===== src/Telemetry/Tests.antt =====
-- The theorems about the telemetry service at concrete inputs.
use flood_monitoring_and_man.Common.{
  count_if, ℕ, String, List, [], ◌∷◌, ◌++◌, Option, none, some, Bool, true, false, ◌≡◌, refl,
  string_eq, leb, ◌+◌, arith,
}
use flood_monitoring_and_man.Samples.{texts, hundredths, message, high_water}
use flood_monitoring_and_man.Wire.Validation.{TelemetryMessage, nominal}
use flood_monitoring_and_man.Telemetry.Rows.{Row, row as row_of, rows_of, build_columns, parse_dt}
use flood_monitoring_and_man.Telemetry.Writer.{
  Writer, enqueued, wake, inserted, failed, new_writer, enqueue, start_flush, step, run,
}
use flood_monitoring_and_man.Telemetry.Writer.Delivery.{
  IsConserved, received, run-IsConserved_from_start, flush_delivers,
}
use flood_monitoring_and_man.Telemetry.Writer.Stopped.{
  IsStopped, failed_insert_stops, unparsable_batch_lost,
}
use flood_monitoring_and_man.Common.HotState.{HotStateLaws}
use flood_monitoring_and_man.Samples.{latest_keys, payload}
use flood_monitoring_and_man.Telemetry.Consumer.{
  json, unreadable, both_set, sensor_set, Delivery, Pipeline, consume,
}
use flood_monitoring_and_man.Telemetry.Consumer.Latest.{valid_messages, latest_of}
use flood_monitoring_and_man.Telemetry.Queries.{
  get_area_telemetry, get_sensor_latest, point_or, from_database,
}
use flood_monitoring_and_man.Telemetry.Queries.Intervals.{rows_in, get_area_telemetry-split}
use flood_monitoring_and_man.Telemetry.Queries.Fallback.{
  answer_of, point_of_latest, get_sensor_latest-consume,
}

abbrev bad_time : TelemetryMessage ℕ
bad_time = record message { ingested_at = "bad" }

abbrev row : Row ℕ String
row = record {
  ts = "t";
  sensor_id = "s";
  area_id = "a";
  status = true;
  mode = nominal;
  measurements = high_water;
  ingested_at = "u";
}

-- A writer with these in the buffer, in flight and in the table.
abbrev writer :
    Bool
    → List (TelemetryMessage ℕ)
    → Option (List (TelemetryMessage ℕ))
    → List (Row ℕ String)
    → ℕ
    → Writer ℕ String
writer running buffer in_flight table write_errors = record {
  batch_max_size = 1;
  buffer = buffer;
  flush_event = false;
  in_flight = in_flight;
  running = running;
  table = table;
  rows_written = 0;
  write_errors = write_errors;
}

run-IsConserved_from_start_example :
    IsConserved (message ∷ []) (writer false (message ∷ []) none [] 1)
unfolding run step enqueue start_flush new_writer build_columns parse_dt rows_of
run-IsConserved_from_start_example =
    run-IsConserved_from_start {F = ℕ} {D = String} 1 (enqueued message ∷ wake ∷ failed ∷ [])
      (writer false (message ∷ []) none [] 1) {all = row ∷ []} refl refl

flush_delivers_example :
    (w : Writer ℕ String) × (run (wake ∷ inserted ∷ []) (writer true (message ∷ []) none [] 0)
      ≡ some w)
    × (w.table ≡ [] ++ row ∷ [])
    × (w.buffer ≡ [])
    × (w.running ≡ true)
    × (w.in_flight ≡ none)
unfolding rows_of parse_dt
flush_delivers_example =
    flush_delivers (writer true (message ∷ []) none [] 0) message [] (row ∷ []) refl refl refl refl

failed_insert_stops_example :
    IsStopped []
      ((message ∷ []) ++ bad_time ∷ received {F = ℕ} (enqueued message ∷ []))
      (record (writer false (message ∷ bad_time ∷ message ∷ []) none [] 1) { flush_event = true })
unfolding run step enqueue
failed_insert_stops_example =
    failed_insert_stops (writer true (bad_time ∷ []) (some (message ∷ [])) [] 0)
      (record (writer false (message ∷ bad_time ∷ message ∷ []) none [] 1) { flush_event = true })
      (message ∷ []) (enqueued message ∷ []) refl refl

unparsable_batch_lost_example :
    IsStopped {D = String} []
      (received {F = ℕ} (enqueued message ∷ []))
      (record (writer false (message ∷ []) none [] 0) { flush_event = true })
unfolding run step enqueue start_flush build_columns parse_dt rows_of
unparsable_batch_lost_example =
    unparsable_batch_lost (writer true (message ∷ bad_time ∷ []) none [] 0)
      (record (writer false (message ∷ []) none [] 0) { flush_event = true })
      (enqueued message ∷ []) refl refl refl refl

abbrev Sensors : Type 0
Sensors = String → Option (TelemetryMessage ℕ)

abbrev Times : Type 0
Times = String → Option String

abbrev pipeline : Pipeline ℕ String Sensors Times
pipeline = record {
  writer = writer true [] none [] 0;
  sensors = λ k. none;
  areas = λ k. none;
  consumed = 0;
  parse_errors = 0;
  hot_updates = 0;
}

-- A message, and a record that is none.
abbrev records : List (Delivery ℕ)
records =
    record { raw = json payload; hot = sensor_set }
    ∷ record { raw = unreadable; hot = both_set }
    ∷ []

sensors_laws : HotStateLaws Sensors (TelemetryMessage ℕ)
sensors_laws = record { get-set_latest = λ k j m ttl h. refl }

abbrev at : ℕ → Row ℕ ℕ
at ts = row_of ts message 9

abbrev some_rows : List (Row ℕ ℕ)
some_rows = at 1 ∷ at 2 ∷ at 3 ∷ at 4 ∷ []

abbrev as_stored : List (Row ℕ ℕ) → List (Row ℕ ℕ)
as_stored rows = rows

leb_trans : (a b c : ℕ) → leb a b ≡ true → leb b c ≡ true → leb a c ≡ true
leb_trans a b c h k = ground (arith, h, k)

get_area_telemetry-split_example :
    count_if (λ r. true) (rows_in (get_area_telemetry leb as_stored "a" 1 4 10 some_rows))
    ≡ count_if (λ r. true) (rows_in (get_area_telemetry leb as_stored "a" 1 3 10 some_rows))
      + count_if (λ r. true) (rows_in (get_area_telemetry leb as_stored "a" 3 4 10 some_rows))
get_area_telemetry-split_example =
    get_area_telemetry-split leb leb_trans as_stored (λ p rs. refl) (λ r. true) "a" 1 3 4 10
      some_rows refl refl (omega arith) refl refl refl refl

get_sensor_latest-consume_example :
    get_sensor_latest {F = ℕ} {D = String}
      (λ rows. rows)
      "s"
      (answer_of ((consume 300 records pipeline).sensors "s"))
      []
    ≡ point_or
        (point_of_latest (latest_of "s" none (valid_messages records)))
        (from_database {F = ℕ} {D = String} (λ rows. rows) "s" [])
get_sensor_latest-consume_example =
    get_sensor_latest-consume 300 (λ rows. rows) sensors_laws "s" records pipeline [] refl
      (tt, (tt, tt))
