-- ===== src/Simulator/Sensor/Sent.antt =====
-- Every envelope that a simulated sensor sends is one that the ingestion gateway accepts.
use flood_monitoring_and_man.Common.{
  String, List, [], ◌∷◌, Option, none, some, Bool, true, false, not, ◌&&◌, if◌then◌else◌, ◌≡◌, refl,
  All, Bool-cases, inl, inr, subst,
}
use flood_monitoring_and_man.Common.Float.{Float, FloatLaws}
use flood_monitoring_and_man.Wire.Validation.{TelemetryEnvelope, validate_envelope, dump_envelope}
use flood_monitoring_and_man.Wire.RoundTrip.{validate_envelope-dump}
use flood_monitoring_and_man.Simulator.Params.{Param, param_eq, in_range, LiteralLaws}
use flood_monitoring_and_man.Simulator.Sensor.{
  Readings, Sensor, Draws, Round, generate_measurements, new_sensor, build_envelope, publish_round,
  round, rounds, check_critical, inject_fault, should_suppress,
}
use flood_monitoring_and_man.Simulator.Sensor.Bounds.{
  IsInRange, HasAll, has, walk-IsWalked, IsReady, new_sensor-IsReady, nothing-IsInRange,
}
use flood_monitoring_and_man.Simulator.Sensor.Measured.{
  fields_valid-measurements, all_none-measurements,
}

module _ {F : Type 0} ⦃f : Float F⦄ where
  -- An envelope with the ids of the sensor, which the gateway's validation accepts as it is.
  abbrev pub IsAcceptable : String → String → Option (TelemetryEnvelope F) → Type 0
  IsAcceptable sensor area none = Unit
  IsAcceptable sensor area (some e) =
      (validate_envelope (dump_envelope e) ≡ some e) × (e.sensor_id ≡ sensor) × (e.area_id ≡ area)

  abbrev pub AllAcceptable : String → String → List (Round F) → Type 0
  AllAcceptable sensor area outs = All (λ (r : Round F). IsAcceptable sensor area r.envelope) outs

  same_ids-acceptable :
      (sensor sensor' area area' : String) (outs : List (Round F))
      → sensor' ≡ sensor
      → area' ≡ area
      → AllAcceptable sensor' area' outs
      → AllAcceptable sensor area outs
  same_ids-acceptable sensor sensor' area area' outs p q h =
      subst (λ a. AllAcceptable sensor a outs) q (subst (λ x. AllAcceptable x area' outs) p h)

  -- A round that raises nothing, leaves the sensor ready and its configuration as it was, and sends at
  -- most an acceptable envelope.
  pub record IsGoodRound (s : Sensor F) (result : Option (Sensor F × Round F)) : Type 0 where
    pub next : Sensor F
    pub out : Round F
    pub returned : result ≡ some (next, out)
    pub ready : IsReady next
    pub same_ids : (next.sensor_id ≡ s.sensor_id) × (next.area_id ≡ s.area_id)
    pub acceptable : IsAcceptable s.sensor_id s.area_id out.envelope

  -- `self._last_published = dict(measurements)` after a publication.
  after_publish : Bool → Readings F → Sensor F → Sensor F
  after_publish published m s = if published then record s { last_published = m } else s

  after_publish-IsReady :
      (published : Bool) (m : Readings F) (s : Sensor F)
      → IsReady s
      → IsReady (after_publish published m s)
        × ((after_publish published m s).sensor_id ≡ s.sensor_id)
        × ((after_publish published m s).area_id ≡ s.area_id)
  unfolding after_publish
  after_publish-IsReady true m s h = (
    record {
      first = h.first;
      others = h.others;
      active = h.active;
      in_range = h.in_range;
      complete = h.complete;
    },
    refl,
    refl,
  )
  after_publish-IsReady false m s h = (h, refl, refl)

  -- Rounds that all return, each with an acceptable envelope if it has one.
  pub record IsGoodRun (s : Sensor F) (result : Option (Sensor F × List (Round F))) : Type 0 where
    pub last : Sensor F
    pub outs : List (Round F)
    pub finished : result ≡ some (last, outs)
    pub still_ready : IsReady last
    pub all_acceptable : AllAcceptable s.sensor_id s.area_id outs

  module _ (laws : FloatLaws F) (literals : LiteralLaws F) where
    publish_round-IsGoodRound :
        (s : Sensor F) (m : Readings F) (is_critical is_faulty : Bool) (d : Draws F)
        → IsReady s
        → IsInRange m
        → HasAll s.active_params m
        → IsGoodRound s (publish_round s m is_critical is_faulty d)
    unfolding publish_round build_envelope after_publish
    publish_round-IsGoodRound s m is_critical is_faulty d h good all =
        elim (Bool-cases (not is_faulty && should_suppress s.delta_filter_pct s.last_published m)) [
          | inl quiet ↦ rw quiet (record {
            next = s;
            out = _;
            returned = refl;
            ready = h;
            same_ids = (refl, refl);
            acceptable = tt;
          })
          | inr loud ↦
              let valid = fields_valid-measurements laws literals m good in
              let measured : has m h.first ≡ true = (subst (λ ps. HasAll ps m) h.active all).0 in
              let after = after_publish-IsReady d.published m s h in
              rw (loud, valid)
                (record {
                  next = after_publish d.published m s;
                  out = _;
                  returned = refl;
                  ready = after.0;
                  same_ids = (after.1, after.2);
                  acceptable = (
                    validate_envelope-dump _ valid (all_none-measurements h.first m measured),
                    refl,
                    refl,
                  );
                })
        ]

    pub round-IsGoodRound : (d : Draws F) (s : Sensor F) → IsReady s → IsGoodRound s (round d s)
    unfolding round generate_measurements
    round-IsGoodRound d s h =
        let w =
          walk-IsWalked laws literals d s.active_params s.active_params [] s.current [] h.in_range
            (nothing-IsInRange F) h.complete h.complete tt in
        let fault = inject_fault s.fault_probability d s.fault_cycles_remaining in
        let s' : Sensor F = record s { current = w.current; fault_cycles_remaining = fault.1 } in
        let g =
          publish_round-IsGoodRound s' w.updated (check_critical w.updated) fault.0 d
            (record {
              first = h.first;
              others = h.others;
              active = h.active;
              in_range = w.current_good;
              complete = w.current_all;
            })
            w.updated_good w.walked_all in
        record {
          next = g.next;
          out = g.out;
          returned = rw (round, generate_measurements, w.walked) g.returned;
          ready = g.ready;
          same_ids = g.same_ids;
          acceptable = g.acceptable;
        }

    rounds-IsGoodRun : (ds : List (Draws F)) (s : Sensor F) → IsReady s → IsGoodRun s (rounds ds s)
    unfolding rounds
    rounds-IsGoodRun [] s h = record {
      last = s;
      outs = [];
      finished = refl;
      still_ready = h;
      all_acceptable = tt;
    }
    rounds-IsGoodRun (d ∷ ds) s h =
        let g = round-IsGoodRound d s h in
        let r = rounds-IsGoodRun ds g.next g.ready in
        record {
          last = r.last;
          outs = g.out ∷ r.outs;
          finished = rw (rounds, g.returned, r.finished) refl;
          still_ready = r.still_ready;
          all_acceptable = (
            g.acceptable,
            same_ids-acceptable _ _ _ _ r.outs g.same_ids.0 g.same_ids.1 r.all_acceptable,
          );
        }

    -- A sensor that the constructor made, from draws in the range of each parameter, runs any number of
    -- rounds without an exception, however large the steps that are drawn, and every envelope that it
    -- tries to publish has the sensor's ids and is accepted unchanged by the validation of the ingestion
    -- gateway.
    pub rounds-IsGoodRun_from_start :
        (config s : Sensor F) (uniform : Param → F) (ds : List (Draws F))
        → ((p : Param) → in_range p (uniform p) ≡ true)
        → new_sensor config uniform ≡ some s
        → IsGoodRun s (rounds ds s)
    rounds-IsGoodRun_from_start config s uniform ds drawn made =
        rounds-IsGoodRun ds s (new_sensor-IsReady config s uniform drawn made)
