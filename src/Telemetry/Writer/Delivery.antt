-- ===== src/Telemetry/Writer/Delivery.antt =====
-- No message is lost, doubled or reordered on its way through the writer.
use flood_monitoring_and_man.Common.{
  ℕ, ◌+◌, length, List, [], ◌∷◌, ◌++◌, Option, none, some, true, false, ◌≡◌, refl, arith,
  append_assoc, ap, append-nil, Option-cases, inl, inr, ◌∙◌, sym, subst, ◌⊎◌,
}
use flood_monitoring_and_man.Wire.Validation.{TelemetryMessage}
use flood_monitoring_and_man.Telemetry.Rows.{DateTimes, Row, rows_of, unnest-build_columns}
use flood_monitoring_and_man.Telemetry.Writer.{
  Writer, Event, enqueued, wake, inserted, failed, new_writer, enqueue, start_flush, step, run,
}

-- The messages that were enqueued, in order.
abbrev pub received : {F : Type 0} → List (Event F) → List (TelemetryMessage F)
received [] = []
received (enqueued msg ∷ es) = msg ∷ received es
received (e ∷ es) = received es

abbrev pub or_empty : {A : Type 0} → Option (List A) → List A
or_empty none = []
or_empty (some l) = l

abbrev pub join_options : {A : Type 0} → Option (List A) → Option (List A) → Option (List A)
join_options (some xs) (some ys) = some (xs ++ ys)
join_options none o = none
join_options (some xs) none = none

pub received-cons :
    {F : Type 0} (e : Event F) (es : List (Event F))
    → received (e ∷ es) ≡ received (e ∷ []) ++ received es
received-cons (enqueued msg) es = refl
received-cons wake es = refl
received-cons inserted es = refl
received-cons failed es = refl

module _ {F D : Type 0} ⦃t : DateTimes D⦄ where
  rows_of-append :
      (xs ys : List (TelemetryMessage F))
      → rows_of {D = D} (xs ++ ys) ≡ join_options (rows_of xs) (rows_of ys)
  unfolding rows_of
  rows_of-append [] ys = ground arith
  rows_of-append (x ∷ xs) ys = ground (arith, rows_of-append xs ys)

  rows_of-suffix :
      (xs ys : List (TelemetryMessage F)) {a : List (Row F D)}
      → rows_of (xs ++ ys) ≡ some a
      → (b : List (Row F D)) × (rows_of ys ≡ some b)
  rows_of-suffix xs ys h =
      let cases : (rows_of ys ≡ none) ⊎ ((b : List (Row F D)) × (rows_of ys ≡ some b)) =
        Option-cases (rows_of ys) in
      elim cases [ inl e ↦ absurd (ground (arith, rows_of-append xs ys)) | inr found ↦ found ]

  rows_of-prefix :
      (xs ys : List (TelemetryMessage F)) {a : List (Row F D)}
      → rows_of (xs ++ ys) ≡ some a
      → (b : List (Row F D)) × (rows_of xs ≡ some b)
  rows_of-prefix xs ys h =
      let cases : (rows_of xs ≡ none) ⊎ ((b : List (Row F D)) × (rows_of xs ≡ some b)) =
        Option-cases (rows_of xs) in
      elim cases [ inl e ↦ absurd (ground (arith, rows_of-append xs ys)) | inr found ↦ found ]

  -- The table holds the rows of the messages up to some point, and behind it come those in flight
  -- and those in the buffer.
  pub record IsConserved (messages : List (TelemetryMessage F)) (w : Writer F D) : Type 0 where
    pub delivered : List (TelemetryMessage F)
    pub conserved : messages ≡ delivered ++ (or_empty w.in_flight ++ w.buffer)
    pub in_table : rows_of delivered ≡ some w.table

  wake-IsConserved :
      (messages : List (TelemetryMessage F)) (w w' : Writer F D) {all : List (Row F D)}
      → rows_of messages ≡ some all
      → IsConserved messages w
      → step wake w ≡ some w'
      → IsConserved messages w'
  unfolding step start_flush
  wake-IsConserved messages w w' parsed h s =
      let pending = or_empty w.in_flight ++ w.buffer in
      let (b, e) = rows_of-suffix h.delivered pending (ap rows_of (sym h.conserved) ∙ parsed) in
      record {
        delivered = h.delivered;
        conserved =
            ground
              (arith, h.conserved, e, unnest-build_columns {D = D} w.buffer, append-nil w.buffer);
        in_table = ground (arith, h.in_table, e, unnest-build_columns {D = D} w.buffer);
      }

  inserted-IsConserved :
      (messages : List (TelemetryMessage F)) (w w' : Writer F D) {all : List (Row F D)}
      → rows_of messages ≡ some all
      → IsConserved messages w
      → step inserted w ≡ some w'
      → IsConserved messages w'
  unfolding step
  inserted-IsConserved messages w w' parsed h s =
      let batch = or_empty w.in_flight in
      let (b, e) =
        rows_of-suffix h.delivered (batch ++ w.buffer) (ap rows_of (sym h.conserved) ∙ parsed) in
      record {
        delivered = h.delivered ++ batch;
        conserved = ground (arith, h.conserved, append_assoc h.delivered batch w.buffer);
        in_table = ground (
          arith,
          h.in_table,
          e,
          unnest-build_columns {D = D} batch,
          rows_of-append h.delivered batch,
          rows_of-append batch w.buffer,
        );
      }

  failed-IsConserved :
      (messages : List (TelemetryMessage F)) (w w' : Writer F D)
      → IsConserved messages w
      → step failed w ≡ some w'
      → IsConserved messages w'
  unfolding step
  failed-IsConserved messages w w' h s = record {
    delivered = h.delivered;
    conserved = ground (arith, h.conserved, append-nil w.buffer);
    in_table = ground (arith, h.in_table);
  }

  enqueued-IsConserved :
      (messages : List (TelemetryMessage F)) (msg : TelemetryMessage F) (w w' : Writer F D)
      → IsConserved messages w
      → step (enqueued msg) w ≡ some w'
      → IsConserved (messages ++ msg ∷ []) w'
  unfolding step enqueue
  enqueued-IsConserved messages msg w w' h s = record {
    delivered = h.delivered;
    conserved = ground (
      arith,
      h.conserved,
      append_assoc h.delivered (or_empty w.in_flight ++ w.buffer) (msg ∷ []),
      append_assoc (or_empty w.in_flight) w.buffer (msg ∷ []),
    );
    in_table = ground (arith, h.in_table);
  }

  step-IsConserved :
      (messages : List (TelemetryMessage F)) (e : Event F) (w w' : Writer F D)
      {all : List (Row F D)}
      → rows_of messages ≡ some all
      → IsConserved messages w
      → step e w ≡ some w'
      → IsConserved (messages ++ received (e ∷ [])) w'
  step-IsConserved messages (enqueued msg) w w' parsed h s =
      enqueued-IsConserved messages msg w w' h s
  step-IsConserved messages wake w w' parsed h s =
      rw append-nil (wake-IsConserved messages w w' parsed h s)
  step-IsConserved messages inserted w w' parsed h s =
      rw append-nil (inserted-IsConserved messages w w' parsed h s)
  step-IsConserved messages failed w w' parsed h s =
      rw append-nil (failed-IsConserved messages w w' h s)

  -- From any writer that has conserved the messages so far.
  run-IsConserved :
      (messages : List (TelemetryMessage F)) (es : List (Event F)) (w w' : Writer F D)
      {all : List (Row F D)}
      → rows_of (messages ++ received es) ≡ some all
      → IsConserved messages w
      → run es w ≡ some w'
      → IsConserved (messages ++ received es) w'
  unfolding run
  run-IsConserved messages [] w w' parsed h r =
      let same : w ≡ w' = ground arith in
      subst (IsConserved (messages ++ [])) same (rw append-nil h)
  run-IsConserved messages (e ∷ es) w w' parsed h r = elim (Option-cases (step e w)) [
    | inl stuck ↦ absurd (ground arith)
    | inr (w'', s) ↦
        let now = messages ++ received (e ∷ []) in
        let split : messages ++ received (e ∷ es) ≡ now ++ received es =
          ap (λ l. messages ++ l) (received-cons e es)
          ∙ sym (append_assoc messages (received (e ∷ [])) (received es)) in
        let rest : run es w'' ≡ some w' = ground arith in
        rw split (
          run-IsConserved now es w'' w' (ap rows_of (sym split) ∙ parsed)
            (step-IsConserved messages e w w''
              (rows_of-prefix messages (received (e ∷ es)) parsed).1 h s)
            rest)
  ]

  -- After any events from the start, if the times of all enqueued messages can be parsed, the table
  -- holds the rows of a first part of them, and the rest is in flight and then in the buffer: none is
  -- lost, doubled or reordered, whatever INSERTs failed.
  pub run-IsConserved_from_start :
      (size : ℕ) (es : List (Event F)) (w : Writer F D) {all : List (Row F D)}
      → rows_of (received es) ≡ some all
      → run es (new_writer size) ≡ some w
      → IsConserved (received es) w
  unfolding new_writer rows_of
  run-IsConserved_from_start size es w parsed r =
      run-IsConserved [] es (new_writer size) w parsed
        (record { delivered = []; conserved = refl; in_table = refl }) r

  -- A writer that runs and awaits no INSERT, with a buffer that is not empty and parses, ends a wait
  -- and an INSERT that succeeds with the rows of the whole buffer in the table, in order, an empty
  -- buffer, and the loop still running.
  pub flush_delivers :
      (w : Writer F D) (msg : TelemetryMessage F) (rest : List (TelemetryMessage F))
      (rows : List (Row F D))
      → w.running ≡ true
      → w.in_flight ≡ none
      → w.buffer ≡ msg ∷ rest
      → rows_of w.buffer ≡ some rows
      → (w' : Writer F D) × (run (wake ∷ inserted ∷ []) w ≡ some w')
        × (w'.table ≡ w.table ++ rows)
        × (w'.buffer ≡ [])
        × (w'.running ≡ true)
        × (w'.in_flight ≡ none)
  unfolding run step start_flush
  flush_delivers w msg rest rows running idle full parsed =
      let w' : Writer F D = record w {
        buffer = [];
        flush_event = false;
        table = w.table ++ rows;
        rows_written = w.rows_written + length w.buffer;
      } in
      (w', ground (arith, unnest-build_columns {D = D} w.buffer), refl, refl, running, idle)
