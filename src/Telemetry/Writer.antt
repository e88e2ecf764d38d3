-- ===== src/Telemetry/Writer.antt =====
-- `BatchWriter` of services/telemetry-service/src/telemetry_service/writer.py. `enqueue` runs in the
-- consumer's task while `_flush` waits for the INSERT, so a flush is two steps, and what happens is a
-- sequence of events.
pub mod Delivery
pub mod Stopped
use flood_monitoring_and_man.Common.{
  ℕ, suc, ◌+◌, String, List, [], ◌∷◌, ◌++◌, Option, none, some, Bool, true, false, leb, length,
  if◌then◌else◌,
}
use flood_monitoring_and_man.Wire.Validation.{TelemetryMessage}
use flood_monitoring_and_man.Telemetry.Rows.{DateTimes, Row, unnest, build_columns}

-- `in_flight` is the local `batch` while its INSERT is awaited. `running` is false once an exception
-- has left `run`, which catches none. The metrics are those of the module.
pub record Writer (F D : Type 0) : Type 0 where
  pub batch_max_size : ℕ
  pub buffer : List (TelemetryMessage F)
  pub flush_event : Bool
  pub in_flight : Option (List (TelemetryMessage F))
  pub running : Bool
  pub table : List (Row F D)
  pub rows_written : ℕ
  pub write_errors : ℕ

-- `wake` is the end of the wait in `run`, by the event or by the timeout; `inserted` and `failed` are
-- the two ends of the INSERT.
pub data Event (F : Type 0) : Type 0 where
  enqueued : TelemetryMessage F → Event F
  wake inserted failed : Event F

module _ {F D : Type 0} where
  unfoldable pub new_writer : ℕ → Writer F D
  new_writer size = record {
    batch_max_size = size;
    buffer = [];
    flush_event = false;
    in_flight = none;
    running = true;
    table = [];
    rows_written = 0;
    write_errors = 0;
  }

  -- `enqueue`: the event is set when the buffer is full, and stays set if it was.
  unfoldable pub enqueue : TelemetryMessage F → Writer F D → Writer F D
  enqueue msg w =
      let buffer = w.buffer ++ msg ∷ [] in
      record w {
        buffer = buffer;
        flush_event = if leb w.batch_max_size (length buffer) then true else w.flush_event;
      }

  -- `rows_written_total.inc(n)` after the INSERT.
  abbrev finish_inserted : Option (List (TelemetryMessage F)) → Writer F D → Writer F D
  finish_inserted none w = w
  finish_inserted (some batch) w = record w {
    in_flight = none;
    rows_written = w.rows_written + length batch;
  }

  -- `self._buffer = batch + self._buffer`, and `raise`.
  abbrev finish_failed : Option (List (TelemetryMessage F)) → Writer F D → Writer F D
  finish_failed none w = w
  finish_failed (some batch) w = record w {
    in_flight = none;
    buffer = batch ++ w.buffer;
    write_errors = suc w.write_errors;
    running = false;
  }

module _ {F D : Type 0} ⦃t : DateTimes D⦄ where
  -- `_flush` up to the INSERT: nothing on an empty buffer. The buffer is emptied before the arrays are
  -- built, so the batch is gone if a time cannot be parsed, and the exception leaves `run`.
  unfoldable pub start_flush : List (TelemetryMessage F) → Writer F D → Writer F D
  unfolding build_columns
  start_flush [] w = w
  start_flush (msg ∷ batch) w = elim (build_columns {D = D} (msg ∷ batch)) [
    | none ↦ record w { buffer = []; running = false }
    | some columns ↦ record w { buffer = []; in_flight = some (msg ∷ batch) }
  ]

  -- The INSERT adds the rows of the arrays; the table has no constraint that ON CONFLICT could meet.
  abbrev insert_rows : Option (List (TelemetryMessage F)) → Writer F D → Writer F D
  insert_rows none w = w
  insert_rows (some batch) w = elim (build_columns batch) [
    | none ↦ w
    | some columns ↦ record w { table = w.table ++ unnest columns }
  ]

  -- What one event does. The wait ends only while `run` is at its head, and the INSERT only while it
  -- is awaited: at any other time the event does not happen, `none`.
  unfoldable pub step : Event F → Writer F D → Option (Writer F D)
  unfolding enqueue start_flush unnest
  step (enqueued msg) w = some (enqueue msg w)
  step wake w =
      if w.running
      then elim w.in_flight [
        | none ↦ some (start_flush w.buffer (record w { flush_event = false }))
        | some batch ↦ none
      ]
      else none
  step inserted w = elim w.in_flight [
    | none ↦ none
    | some batch ↦ some (finish_inserted w.in_flight (insert_rows w.in_flight w))
  ]
  step failed w = elim w.in_flight [ none ↦ none | some batch ↦ some (finish_failed w.in_flight w) ]

  unfoldable pub run : List (Event F) → Writer F D → Option (Writer F D)
  run [] w = some w
  run (e ∷ es) w = elim (step e w) [ none ↦ none | some w' ↦ run es w' ]
