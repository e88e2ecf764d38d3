-- ===== src/Telemetry/Writer/Stopped.antt =====
-- What is left of the writer once an exception has ended its loop.
use flood_monitoring_and_man.Common.{
  suc, List, [], ◌∷◌, ◌++◌, none, some, true, false, ◌≡◌, refl, arith, append_assoc, append-nil,
  Option-cases, inl, inr, ◌⊎◌,
}
use flood_monitoring_and_man.Wire.Validation.{TelemetryMessage}
use flood_monitoring_and_man.Telemetry.Rows.{DateTimes, Row, rows_of, unnest-build_columns}
use flood_monitoring_and_man.Telemetry.Writer.{
  Writer, Event, enqueued, wake, inserted, failed, enqueue, start_flush, step, run,
}
use flood_monitoring_and_man.Telemetry.Writer.Delivery.{received, received-cons}

module _ {F D : Type 0} ⦃t : DateTimes D⦄ where
  -- The loop has ended, the table is as it was, and the buffer has grown by what was enqueued.
  pub record IsStopped (rows : List (Row F D)) (buffer : List (TelemetryMessage F)) (w : Writer F D)
      : Type 0 where
    pub stopped : w.running ≡ false
    pub idle : w.in_flight ≡ none
    pub same_table : w.table ≡ rows
    pub same_buffer : w.buffer ≡ buffer

  step-IsStopped :
      (rows : List (Row F D)) (buffer : List (TelemetryMessage F)) (e : Event F) (w w' : Writer F D)
      → IsStopped rows buffer w
      → step e w ≡ some w'
      → IsStopped rows (buffer ++ received (e ∷ [])) w'
  unfolding step enqueue
  step-IsStopped rows buffer (enqueued msg) w w' h s = ground arith
  step-IsStopped rows buffer wake w w' h s = ground arith
  step-IsStopped rows buffer inserted w w' h s = ground arith
  step-IsStopped rows buffer failed w w' h s = ground arith

  run-IsStopped :
      (rows : List (Row F D)) (buffer : List (TelemetryMessage F)) (es : List (Event F))
      (w w' : Writer F D)
      → IsStopped rows buffer w
      → run es w ≡ some w'
      → IsStopped rows (buffer ++ received es) w'
  unfolding run
  run-IsStopped rows buffer [] w w' h r = ground (arith, append-nil buffer)
  run-IsStopped rows buffer (e ∷ es) w w' h r =
      let cases : (step e w ≡ none) ⊎ ((x : Writer F D) × (step e w ≡ some x)) =
        Option-cases (step e w) in
      elim cases [
        | inl stuck ↦ absurd (ground arith)
        | inr (x, s) ↦
            let rest : run es x ≡ some w' = ground arith in
            rw received-cons (
              rw (← append_assoc) (
                run-IsStopped rows (buffer ++ received (e ∷ [])) es x w'
                  (step-IsStopped rows buffer e w x h s) rest))
      ]

  -- After an INSERT that fails, whatever happens then, nothing more is written: the table stays as it
  -- was, and the batch, the buffer and all that is enqueued later stay in the buffer.
  pub failed_insert_stops :
      (w w' : Writer F D) (batch : List (TelemetryMessage F)) (es : List (Event F))
      → w.in_flight ≡ some batch
      → run (failed ∷ es) w ≡ some w'
      → IsStopped w.table (batch ++ w.buffer ++ received es) w'
  unfolding run step
  failed_insert_stops w w' batch es flying r =
      let x : Writer F D = record w {
        in_flight = none;
        buffer = batch ++ w.buffer;
        write_errors = suc w.write_errors;
        running = false;
      } in
      let rest : run es x ≡ some w' = ground arith in
      run-IsStopped w.table (batch ++ w.buffer) es x w'
        (record { stopped = refl; idle = refl; same_table = refl; same_buffer = refl }) rest

  -- If a time in the buffer cannot be parsed when the wait ends, the whole buffer is lost and the loop
  -- ends: whatever happens then, the table stays as it was, and the buffer holds only what is enqueued
  -- later.
  pub unparsable_batch_lost :
      (w w' : Writer F D) (es : List (Event F))
      → w.running ≡ true
      → w.in_flight ≡ none
      → rows_of {D = D} w.buffer ≡ none
      → run (wake ∷ es) w ≡ some w'
      → IsStopped w.table (received es) w'
  unfolding run step start_flush rows_of
  unparsable_batch_lost w w' es running idle bad r =
      let x : Writer F D = record w { flush_event = false; buffer = []; running = false } in
      let rest : run es x ≡ some w' = ground (arith, unnest-build_columns {D = D} w.buffer) in
      run-IsStopped w.table [] es x w'
        (record { stopped = refl; idle = idle; same_table = refl; same_buffer = refl }) rest
