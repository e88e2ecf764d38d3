-- ===== src/Telemetry/Consumer/Latest.antt =====
-- What reaches the writer and the hot state.
use flood_monitoring_and_man.Common.{
  ℕ, suc, ◌+◌, String, List, [], ◌∷◌, ◌++◌, Option, none, some, ◌≡◌, refl, arith, ◌==◌, string_eq,
  if◌then◌else◌, length, append_assoc, append-nil, All, ap, sym, ◌∙◌,
}
use flood_monitoring_and_man.Common.Float.{Float}
use flood_monitoring_and_man.Common.HotState.{HotState, HotStateLaws}
use flood_monitoring_and_man.Wire.Validation.{TelemetryMessage}
use flood_monitoring_and_man.Telemetry.Writer.{enqueue}
use flood_monitoring_and_man.Telemetry.Consumer.{
  HotAnswer, both_set, sensor_set, none_set, Delivery, Pipeline, update, fan_out, parse, handle,
  consume,
}

module _ {F : Type 0} ⦃f : Float F⦄ where
  abbrev with_valid :
      Option (TelemetryMessage F) → List (TelemetryMessage F) → List (TelemetryMessage F)
  with_valid none ms = ms
  with_valid (some m) ms = m ∷ ms

  -- The messages that can be parsed, in order.
  abbrev pub valid_messages : List (Delivery F) → List (TelemetryMessage F)
  valid_messages [] = []
  valid_messages (d ∷ ds) = with_valid (parse d.raw) (valid_messages ds)

  -- The last message of a sensor, or what there was before.
  abbrev pub latest_of :
      String → Option (TelemetryMessage F) → List (TelemetryMessage F) → Option (TelemetryMessage F)
  latest_of s before [] = before
  latest_of s before (m ∷ ms) = latest_of s (if m.sensor_id == s then some m else before) ms

  latest_of-with_valid :
      (s : String) (before : Option (TelemetryMessage F)) (m : Option (TelemetryMessage F))
      (ms : List (TelemetryMessage F))
      → latest_of s (latest_of s before (with_valid m [])) ms ≡ latest_of s before (with_valid m ms)
  latest_of-with_valid s before none ms = refl
  latest_of-with_valid s before (some m) ms = refl

-- Redis took the SET of the sensor's key.
abbrev pub IsTaken : HotAnswer → Type 0
IsTaken both_set = Unit
IsTaken sensor_set = Unit
IsTaken none_set = ⊥

abbrev pub IsSensorSet : {F : Type 0} → Delivery F → Type 0
IsSensorSet d = IsTaken d.hot

module _ {F D H G : Type 0} ⦃f : Float F⦄ ⦃h : HotState H (TelemetryMessage F)⦄
    ⦃a : HotState G String⦄ (ttl_s : ℕ) where
  -- The writer's buffer has the valid messages, in order, and the counters account for every record.
  pub record IsFed (p q : Pipeline F D H G) (ds : List (Delivery F)) : Type 0 where
    pub buffered : q.writer.buffer ≡ p.writer.buffer ++ valid_messages ds
    pub same_table : q.writer.table ≡ p.writer.table
    pub every_record : q.consumed ≡ p.consumed + length ds
    pub parsed_or_not : q.parse_errors + length (valid_messages ds) ≡ p.parse_errors + length ds

  update-writer :
      (msg : TelemetryMessage F) (hot : HotAnswer) (p : Pipeline F D H G)
      → ((update ttl_s msg hot p).writer ≡ p.writer)
        × ((update ttl_s msg hot p).consumed ≡ p.consumed)
        × ((update ttl_s msg hot p).parse_errors ≡ p.parse_errors)
  unfolding update
  update-writer msg both_set p = (refl, refl, refl)
  update-writer msg sensor_set p = (refl, refl, refl)
  update-writer msg none_set p = (refl, refl, refl)

  fan_out-IsFed :
      (m : Option (TelemetryMessage F)) (hot : HotAnswer) (p q : Pipeline F D H G) (d : Delivery F)
      (ds : List (Delivery F))
      → parse d.raw ≡ m
      → IsFed (fan_out ttl_s m hot (record p { consumed = suc p.consumed })) q ds
      → IsFed p q (d ∷ ds)
  unfolding fan_out enqueue
  fan_out-IsFed none hot p q d ds parsed i = record {
    buffered = ground (arith, i.buffered, parsed);
    same_table = i.same_table;
    every_record = omega (arith, i.every_record);
    parsed_or_not = ground (arith, i.parsed_or_not, parsed);
  }
  fan_out-IsFed (some m) hot p q d ds parsed i =
      let p' : Pipeline F D H G = record p {
        consumed = suc p.consumed;
        writer = enqueue m p.writer;
      } in
      let facts = update-writer m hot p' in
      record {
        buffered = ground (
          arith,
          i.buffered,
          parsed,
          ap (λ w. w.buffer) facts.0,
          append_assoc p.writer.buffer (m ∷ []) (valid_messages ds),
        );
        same_table = i.same_table ∙ ap (λ w. w.table) facts.0;
        every_record = omega (arith, i.every_record, facts.1);
        parsed_or_not = ground (arith, i.parsed_or_not, parsed, facts.2);
      }

  -- Whatever Redis answers, the writer's buffer gains exactly the valid messages, in order, and every
  -- record is counted, as one that is valid or as a parse error.
  pub consume-IsFed :
      (ds : List (Delivery F)) (p : Pipeline F D H G) → IsFed p (consume ttl_s ds p) ds
  unfolding consume handle
  consume-IsFed [] p = record {
    buffered = sym (append-nil p.writer.buffer);
    same_table = refl;
    every_record = omega arith;
    parsed_or_not = omega arith;
  }
  consume-IsFed (d ∷ ds) p =
      fan_out-IsFed (parse d.raw) d.hot p _ d ds refl
        (consume-IsFed ds (handle ttl_s d (record p { consumed = suc p.consumed })))

  get_latest-update :
      (laws : HotStateLaws H (TelemetryMessage F)) (s : String) (m : Option (TelemetryMessage F))
      (hot : HotAnswer) (p : Pipeline F D H G)
      → IsTaken hot
      → h.get_latest (fan_out ttl_s m hot p).sensors s
        ≡ latest_of s (h.get_latest p.sensors s) (with_valid m [])
  unfolding fan_out update
  get_latest-update laws s none hot p ok = refl
  get_latest-update laws s (some m) both_set p ok =
      laws.get-set_latest m.sensor_id s m ttl_s p.sensors
  get_latest-update laws s (some m) sensor_set p ok =
      laws.get-set_latest m.sensor_id s m ttl_s p.sensors
  get_latest-update laws s (some m) none_set p ok = absurd ok

  -- While Redis takes the SET of each sensor's key, and before any key expires, the key of a sensor has
  -- the last valid message of that sensor, or what it had before if there was none.
  pub get_latest-consume :
      (laws : HotStateLaws H (TelemetryMessage F)) (s : String) (ds : List (Delivery F))
      (p : Pipeline F D H G)
      → All IsSensorSet ds
      → h.get_latest (consume ttl_s ds p).sensors s
        ≡ latest_of s (h.get_latest p.sensors s) (valid_messages ds)
  unfolding consume handle
  get_latest-consume laws s [] p ok = refl
  get_latest-consume laws s (d ∷ ds) p ok =
      let q : Pipeline F D H G = record p { consumed = suc p.consumed } in
      get_latest-consume laws s ds (handle ttl_s d q) ok.1
      ∙ ap (λ b. latest_of s b (valid_messages ds))
          (get_latest-update laws s (parse d.raw) d.hot q ok.0)
      ∙ latest_of-with_valid s (h.get_latest p.sensors s) (parse d.raw) (valid_messages ds)
