-- ===== src/Simulator/Sensor/Faults.antt =====
-- How long a fault lasts, and that it is always reported.
use flood_monitoring_and_man.Common.{
  ℕ, suc, List, [], ◌∷◌, ◌++◌, Option, none, some, Bool, true, false, not, ◌&&◌, ◌≡◌, refl, arith,
  All, Option-cases, inl, inr, length,
}
use flood_monitoring_and_man.Common.Float.{Float, FloatLaws}
use flood_monitoring_and_man.Simulator.Params.{LiteralLaws}
use flood_monitoring_and_man.Simulator.Sensor.Bounds.{IsReady}
use flood_monitoring_and_man.Simulator.Sensor.Sent.{round-IsGoodRound}
use flood_monitoring_and_man.Simulator.Sensor.{
  Readings, Sensor, Draws, Round, generate_measurements, build_envelope, publish_round,
  inject_fault, round, rounds, check_critical,
}

module _ {F : Type 0} ⦃f : Float F⦄ where
  -- A round that reports a fault: the envelope it tries to publish has the status 0.
  abbrev pub reports_fault : Round F → Bool
  reports_fault r = elim r.envelope [ none ↦ false | some e ↦ r.is_faulty && not e.status ]

  publish_round-faulty :
      (s s' : Sensor F) (m : Readings F) (is_critical : Bool) (d : Draws F) (r : Round F)
      → publish_round s m is_critical true d ≡ some (s', r)
      → (reports_fault r ≡ true)
        × (s'.fault_cycles_remaining ≡ s.fault_cycles_remaining)
        × (s'.fault_probability ≡ s.fault_probability)
  unfolding publish_round build_envelope
  publish_round-faulty s s' m is_critical d r h = ground arith

  inject_fault-remaining :
      (probability : F) (d : Draws F) (n m : ℕ)
      → m ≡ suc n
      → ((inject_fault probability d m).0 ≡ true) × ((inject_fault probability d m).1 ≡ n)
  unfolding inject_fault
  inject_fault-remaining probability d n m h = ground (arith, h)

  round-remaining :
      (d : Draws F) (s s' : Sensor F) (r : Round F) (n : ℕ)
      → s.fault_cycles_remaining ≡ suc n
      → round d s ≡ some (s', r)
      → (reports_fault r ≡ true)
        × (s'.fault_cycles_remaining ≡ n)
        × (s'.fault_probability ≡ s.fault_probability)
  unfolding round
  round-remaining d s s' r n left h =
      let fault = inject_fault-remaining s.fault_probability d n s.fault_cycles_remaining left in
      elim (Option-cases (generate_measurements d s)) [
        | inl error ↦ absurd (ground (arith, error))
        | inr ((current, m), walked) ↦
            let s0 : Sensor F = record s { current = current; fault_cycles_remaining = n } in
            let same : publish_round s0 m (check_critical m) true d ≡ some (s', r) =
              ground (arith, walked, fault.0, fault.1) in
            publish_round-faulty s0 s' m (check_critical m) d r same
      ]

  round-new_fault :
      (d : Draws F) (s s' : Sensor F) (r : Round F)
      → s.fault_cycles_remaining ≡ 0
      → f.lt d.random s.fault_probability ≡ true
      → round d s ≡ some (s', r)
      → (reports_fault r ≡ true)
        × (s'.fault_cycles_remaining ≡ d.cycles)
        × (s'.fault_probability ≡ s.fault_probability)
  unfolding round inject_fault
  round-new_fault d s s' r none_left hit h = elim (Option-cases (generate_measurements d s)) [
    | inl error ↦ absurd (ground (arith, error))
    | inr ((current, m), walked) ↦
        let s0 : Sensor F = record s { current = current; fault_cycles_remaining = d.cycles } in
        let same : publish_round s0 m (check_critical m) true d ≡ some (s', r) =
          ground (arith, walked, none_left, hit) in
        publish_round-faulty s0 s' m (check_critical m) d r same
  ]

  round-no_fault :
      (d : Draws F) (s s' : Sensor F) (r : Round F)
      → s.fault_cycles_remaining ≡ 0
      → f.lt d.random s.fault_probability ≡ false
      → round d s ≡ some (s', r)
      → r.is_faulty ≡ false
  unfolding round inject_fault publish_round
  round-no_fault d s s' r none_left miss h = ground (arith, none_left, miss)

  -- Rounds that all report a fault, and one behind them that is not faulty.
  pub record IsFault (cycles : ℕ) (result : Option (Sensor F × List (Round F))) : Type 0 where
    pub last : Sensor F
    pub faulty : List (Round F)
    pub healthy : Round F
    pub finished : result ≡ some (last, faulty ++ healthy ∷ [])
    pub number : length faulty ≡ cycles
    pub all_reported : All (λ r. reports_fault r ≡ true) faulty
    pub over : healthy.is_faulty ≡ false

  module _ (laws : FloatLaws F) (literals : LiteralLaws F) where
    rounds-remaining :
        (ds : List (Draws F)) (e : Draws F) (s : Sensor F)
        → IsReady s
        → s.fault_cycles_remaining ≡ length ds
        → f.lt e.random s.fault_probability ≡ false
        → IsFault (length ds) (rounds (ds ++ e ∷ []) s)
    unfolding rounds
    rounds-remaining [] e s ready left miss =
        let g = round-IsGoodRound laws literals e s ready in
        record {
          last = g.next;
          faulty = [];
          healthy = g.out;
          finished = rw (rounds, g.returned) refl;
          number = refl;
          all_reported = tt;
          over = round-no_fault e s g.next g.out left miss g.returned;
        }
    rounds-remaining (d ∷ ds) e s ready left miss =
        let g = round-IsGoodRound laws literals d s ready in
        let facts = round-remaining d s g.next g.out (length ds) left g.returned in
        let rest = rounds-remaining ds e g.next g.ready facts.1 (rw facts.2 miss) in
        record {
          last = rest.last;
          faulty = g.out ∷ rest.faulty;
          healthy = rest.healthy;
          finished = rw (rounds, g.returned, rest.finished) refl;
          number = omega (arith, rest.number);
          all_reported = (facts.0, rest.all_reported);
          over = rest.over;
        }

    -- A ready sensor that is not in a fault, and whose draw for one hits the fault probability, is
    -- faulty for one round more than the number of cycles drawn: each of these rounds tries to publish
    -- an envelope of status 0, whatever the filter says, and the round after them is not faulty unless
    -- its draw hits again.
    pub rounds-IsFault :
        (d e : Draws F) (ds : List (Draws F)) (s : Sensor F)
        → IsReady s
        → s.fault_cycles_remaining ≡ 0
        → f.lt d.random s.fault_probability ≡ true
        → length ds ≡ d.cycles
        → f.lt e.random s.fault_probability ≡ false
        → IsFault (suc d.cycles) (rounds (d ∷ ds ++ e ∷ []) s)
    unfolding rounds
    rounds-IsFault d e ds s ready none_left hit size miss =
        let g = round-IsGoodRound laws literals d s ready in
        let facts = round-new_fault d s g.next g.out none_left hit g.returned in
        let rest =
          rounds-remaining ds e g.next g.ready (omega (arith, facts.1)) (rw facts.2 miss) in
        record {
          last = rest.last;
          faulty = g.out ∷ rest.faulty;
          healthy = rest.healthy;
          finished = rw (rounds, g.returned, rest.finished) refl;
          number = omega (arith, rest.number);
          all_reported = (facts.0, rest.all_reported);
          over = rest.over;
        }
