-- ===== src/Ingestion/Gateway/Bound.antt =====
-- What the gateway sends carries the sensor's registered area.
use flood_monitoring_and_man.Common.{
  ℕ, suc, ◌+◌, Option-cases, inl, inr, String, List, [], ◌∷◌, Option, none, some, Bool, true, false,
  ◌≡◌, refl, arith, ◌==◌, string_eq, eq_iff, All, All-append, All-weaken, Bool-cases,
}
use flood_monitoring_and_man.Common.Dict.{lookup, lookup-insert}
use flood_monitoring_and_man.Common.Float.{Float}
use flood_monitoring_and_man.Wire.Validation.{
  Payload, TelemetryEnvelope, TelemetryMessage, validate_envelope, validate_message, dump,
  fields_valid,
}
use flood_monitoring_and_man.Wire.RoundTrip.{validate_envelope-IsAccepted, validate_message-dump}
use flood_monitoring_and_man.Ingestion.SensorCache.{
  CacheEntry, SensorCache, DbResult, fetch_from_db, get_area_id,
}
use flood_monitoring_and_man.Ingestion.Gateway.{
  Decoded, json, other_json, bad_json, bad_unicode, Incoming, Gateway, new_gateway, produce,
  forward, validated, process, on_message, on_messages,
}

-- A registry of sensors and their areas, which no one changes while the messages come.
module _ (registered : String → Option String) where
  -- A cache that agrees with the registry wherever it has an area.
  abbrev pub IsTrue : SensorCache → Type 0
  IsTrue c =
      (sensor area : String) (entry : CacheEntry)
      → lookup sensor c.store ≡ some entry
      → entry.value ≡ some area
      → registered sensor ≡ some area

  nothing_cached : (ttl : ℕ) → IsTrue (record { ttl = ttl; store = [] })
  unfolding lookup
  nothing_cached ttl sensor area entry found value = ground arith

  get_area_id-IsTrue :
      (sensor : String) (now made_at : ℕ) (db : DbResult) (c : SensorCache)
      → ((area : String) → fetch_from_db db ≡ some area → registered sensor ≡ some area)
      → IsTrue c
      → IsTrue (get_area_id sensor now made_at db c).0
  unfolding get_area_id
  get_area_id-IsTrue sensor now made_at db c answers h s area entry found value = ground (
    arith,
    eq_iff sensor s,
    lookup-insert sensor s (record { value = fetch_from_db db; expires_at = made_at + c.ttl })
        c.store,
    h s area entry,
    answers area,
  )

  get_area_id-registered :
      (sensor : String) (now made_at : ℕ) (db : DbResult) (c : SensorCache) (area : String)
      → ((area : String) → fetch_from_db db ≡ some area → registered sensor ≡ some area)
      → IsTrue c
      → (get_area_id sensor now made_at db c).1 ≡ some area
      → registered sensor ≡ some area
  unfolding get_area_id
  get_area_id-registered sensor now made_at db c area answers h answer =
      elim (Option-cases (lookup sensor c.store)) [
        | inl miss ↦ ground (arith, answers area)
        | inr (entry, hit) ↦ ground (arith, answers area, h sensor area entry hit)
      ]

  module _ {F : Type 0} ⦃f : Float F⦄ where
    -- The database's answer to a message's query is the registry's, or none.
    abbrev pub IsHonest : Decoded F → DbResult → Type 0
    IsHonest (json p) db =
        (area : String) → fetch_from_db db ≡ some area → registered p.sensor_id ≡ some area
    IsHonest other_json db = Unit
    IsHonest bad_json db = Unit
    IsHonest bad_unicode db = Unit

    abbrev pub AnswersHonestly : Incoming F → Type 0
    AnswersHonestly i = IsHonest i.decoded i.db

    -- A message to Kafka: its key is the area it claims and the area its sensor is registered for, its
    -- values are in range, and its consumers can read it.
    pub record IsBinding (message : String × Payload F) : Type 0 where
      pub claimed : message.1.area_id ≡ message.0
      pub bound : registered message.1.sensor_id ≡ some message.0
      pub in_range : fields_valid message.1.measurements ≡ true
      pub readable : (m : TelemetryMessage F) × (validate_message message.1 ≡ some m)

    pub record IsSafe (g : Gateway F) : Type 0 where
      pub true_cache : IsTrue g.cache
      pub binding : All IsBinding g.sent

    dump-IsBinding :
        (p : Payload F) (e : TelemetryEnvelope F) (at area : String)
        → validate_envelope p ≡ some e
        → e.area_id ≡ area
        → registered e.sensor_id ≡ some area
        → IsBinding (area, dump (record { envelope = e; ingested_at = at }))
    unfolding dump
    dump-IsBinding p e at area valid claim known = record {
      claimed = claim;
      bound = known;
      in_range = (validate_envelope-IsAccepted p e valid).in_range;
      readable = (record { envelope = e; ingested_at = at }, validate_message-dump p e at valid);
    }

    produce-IsSafe :
        (e : TelemetryEnvelope F) (area at : String) (produced : Bool) (g : Gateway F)
        → IsBinding (area, dump (record { envelope = e; ingested_at = at }))
        → IsSafe g
        → IsSafe (produce e area at produced g)
    unfolding produce
    produce-IsSafe e area at true g new h = record {
      true_cache = h.true_cache;
      binding =
          All-append IsBinding g.sent
            ((area, dump (record { envelope = e; ingested_at = at })) ∷ []) h.binding (new, tt);
    }
    produce-IsSafe e area at false g new h = record {
      true_cache = h.true_cache;
      binding = h.binding;
    }

    forward-IsSafe :
        (p : Payload F) (e : TelemetryEnvelope F) (area : Option String) (i : Incoming F)
        (g : Gateway F)
        → validate_envelope p ≡ some e
        → ((a : String) → area ≡ some a → registered e.sensor_id ≡ some a)
        → IsSafe g
        → IsSafe (forward e area i g)
    unfolding forward
    forward-IsSafe p e none i g valid known h = record {
      true_cache = h.true_cache;
      binding = h.binding;
    }
    forward-IsSafe p e (some area) i g valid known h = elim (Bool-cases (e.area_id == area)) [
      | inl same ↦
          let claim = (eq_iff e.area_id area).0 same in
          rw same (
            produce-IsSafe e area i.ingested_at i.produced g
              (dump-IsBinding p e i.ingested_at area valid claim (known area refl)) h)
      | inr differs ↦ rw differs (record { true_cache = h.true_cache; binding = h.binding })
    ]

    validated-IsSafe :
        (p : Payload F) (i : Incoming F) (g : Gateway F)
        → IsHonest (json p) i.db
        → IsSafe g
        → IsSafe (validated (validate_envelope p) i g)
    unfolding validated
    validated-IsSafe p i g honest h = elim (Option-cases (validate_envelope p)) [
      | inl invalid ↦ rw invalid (record { true_cache = h.true_cache; binding = h.binding })
      | inr (e, valid) ↦
          let sensor = (validate_envelope-IsAccepted p e valid).same_sensor in
          let answers : (a : String)
              → fetch_from_db i.db ≡ some a
              → registered e.sensor_id ≡ some a =
            λ a got. rw sensor (honest a got) in
          rw valid (
            forward-IsSafe p e _ i _ valid
              (λ a.
                get_area_id-registered e.sensor_id i.now i.made_at i.db g.cache a answers
                  h.true_cache)
              (record {
                true_cache =
                    get_area_id-IsTrue e.sensor_id i.now i.made_at i.db g.cache answers
                      h.true_cache;
                binding = h.binding;
              }))
    ]

    process-IsSafe :
        (d : Decoded F) (i : Incoming F) (g : Gateway F)
        → IsHonest d i.db
        → IsSafe g
        → IsSafe (process d i g)
    unfolding process
    process-IsSafe (json p) i g honest h = validated-IsSafe p i g honest h
    process-IsSafe other_json i g honest h = record {
      true_cache = h.true_cache;
      binding = h.binding;
    }
    process-IsSafe bad_json i g honest h = record { true_cache = h.true_cache; binding = h.binding }
    process-IsSafe bad_unicode i g honest h = h

    pub on_message-IsSafe :
        (i : Incoming F) (g : Gateway F) → AnswersHonestly i → IsSafe g → IsSafe (on_message i g)
    unfolding on_message
    on_message-IsSafe i g honest h =
        process-IsSafe i.decoded i (record g { received = suc g.received }) honest
          (record { true_cache = h.true_cache; binding = h.binding })

    pub new_gateway-IsSafe : (ttl : ℕ) → IsSafe (new_gateway (record { ttl = ttl; store = [] }))
    new_gateway-IsSafe ttl = record { true_cache = nothing_cached ttl; binding = tt }

    on_messages-IsSafe :
        (is : List (Incoming F)) (g : Gateway F)
        → All AnswersHonestly is
        → IsSafe g
        → IsSafe (on_messages is g)
    unfolding on_messages
    on_messages-IsSafe [] g honest h = h
    on_messages-IsSafe (i ∷ rest) g honest h =
        on_messages-IsSafe rest (on_message i g) honest.1 (on_message-IsSafe i g honest.0 h)

    -- However the area ids of the messages are forged: from a gateway with an empty cache, if every
    -- answer of the database is the registered area of the sensor asked for, or none, then every message
    -- sent has its sensor's registered area as its key and as its area, values in range and at least the
    -- form that the consumers' validation accepts.
    pub sent-IsBinding :
        (is : List (Incoming F)) (ttl : ℕ)
        → All AnswersHonestly is
        → All IsBinding (on_messages is (new_gateway (record { ttl = ttl; store = [] }))).sent
    sent-IsBinding is ttl honest =
        (on_messages-IsSafe is (new_gateway (record { ttl = ttl; store = [] })) honest
          (new_gateway-IsSafe ttl)).binding

-- A registry that keeps what it had.
module _ {F : Type 0} ⦃f : Float F⦄ (registered registered' : String → Option String)
    (kept : (s a : String) → registered s ≡ some a → registered' s ≡ some a) where
  keep-IsBinding :
      (message : String × Payload F) → IsBinding registered message → IsBinding registered' message
  keep-IsBinding message h = record {
    claimed = h.claimed;
    bound = kept message.1.sensor_id message.0 h.bound;
    in_range = h.in_range;
    readable = h.readable;
  }

  pub keep-IsSafe : (g : Gateway F) → IsSafe registered g → IsSafe registered' g
  keep-IsSafe g h = record {
    true_cache = λ sensor area entry found value.
        kept sensor area (h.true_cache sensor area entry found value);
    binding = All-weaken _ _ g.sent keep-IsBinding h.binding;
  }
