-- ===== src/RuleEngine/Redundancy/Notices.antt =====
-- Which alerts the first fault of a sensor raises, from the counts that were stored before it.
use flood_monitoring_and_man.Common.{
  ℕ, All, zero, suc, ◌+◌, String, List, [], ◌∷◌, ◌++◌, Option, none, some, Bool, true, false,
  length, map-append, if◌then◌else◌, ◌≡◌, refl, ◌==◌, string_eq, arith, map, ◌∙◌, eq_iff, ap,
}
use flood_monitoring_and_man.Common.Int.{ℤ, pos, negsuc, pred}
use flood_monitoring_and_man.Common.Redis.{Redis, RedisLaws, operational_count, or_zero, key_eq}
use flood_monitoring_and_man.RuleEngine.Models.{
  Alert, Draw, Kind, malfunction, priority, Severity, low, high,
}
use flood_monitoring_and_man.RuleEngine.Redundancy.{
  Tracker, decrement, fault_loop, fault_alerts, fault_metrics, on_sensor_reading,
}
use flood_monitoring_and_man.RuleEngine.Redundancy.Faults.{
  is_healthy, marked, get-marked, handle_fault_first,
}
use flood_monitoring_and_man.RuleEngine.Redundancy.Counts.{
  contains, IsDistinct, decrement_result, get-decrement,
}

-- What an alert of the tracker says.
pub record Notice : Type 0 where
  pub alert_id : String
  pub kind : Kind
  pub severity : Severity
  pub area_id : String
  pub sensor_id : Option String
  pub parameter : Option String
  pub remaining : Option ℤ
  pub originating : Option String
  pub ts_event : String

abbrev pub notice_of : {F : Type 0} → Alert F → Notice
notice_of a = record {
  alert_id = a.alert_id;
  kind = a.kind;
  severity = a.severity;
  area_id = a.area_id;
  sensor_id = a.sensor_id;
  parameter = a.parameter;
  remaining = a.context.redundancy_remaining;
  originating = a.context.originating_alert_id;
  ts_event = a.ts_event;
}

abbrev pub at_most_one : ℤ → Bool
at_most_one (pos zero) = true
at_most_one (pos (suc zero)) = true
at_most_one (pos (suc (suc n))) = false
at_most_one (negsuc n) = true

module _ (draw : ℕ → Draw) (sensor area ts : String) where
  abbrev notice : ℕ → Kind → Severity → String → ℤ → Option String → Notice
  notice n kind severity param remaining originating = record {
    alert_id = (draw n).uuid;
    kind = kind;
    severity = severity;
    area_id = area;
    sensor_id = some sensor;
    parameter = some param;
    remaining = some remaining;
    originating = originating;
    ts_event = ts;
  }

  -- The notices for the parameters in turn, by the count that each had before: with two or more
  -- sensors left one low malfunction, else a high malfunction and a priority alert that names it.
  unfoldable pub notices : (String → ℤ) → ℕ → List String → List Notice
  notices before n [] = []
  notices before n (p ∷ ps) =
      let alone = notices before (n + 1) ps in
      let both = notices before (n + 2) ps in
      if at_most_one (before p)
      then notice n malfunction high p (pos 0) none
        ∷ notice (suc n) priority high p (pos 0) (some (draw n).uuid)
        ∷ both
      else notice n malfunction low p (pred (before p)) none ∷ alone

  -- `notices` reads the counts of its own parameters only.
  notices-congr :
      (b c : String → ℤ) (n : ℕ) (ps : List String)
      → ((q : String) → contains q ps ≡ true → b q ≡ c q)
      → notices b n ps ≡ notices c n ps
  unfolding notices
  notices-congr b c n [] h = refl
  notices-congr b c n (p ∷ ps) h =
      let tail : (q : String) → contains q ps ≡ true → b q ≡ c q = λ q m. h q (ground arith) in
      ground (
        arith,
        h p,
        eq_iff p p,
        notices-congr b c (n + 1) ps tail,
        notices-congr b c (n + 2) ps tail,
      )

contains-ne :
    (p q : String) (ps : List String)
    → contains p ps ≡ false
    → contains q ps ≡ true
    → (p == q) ≡ false
contains-ne p q ps h m = ground (arith, eq_iff p q)

module _ {R : Type 0} ⦃d : Redis R⦄ (a : String) where
  abbrev pub count_of : R → String → ℤ
  count_of r q = or_zero (d.get r (operational_count a q))

module _ {R : Type 0} ⦃d : Redis R⦄ (laws : RedisLaws R) (F : Type 0) (draw : ℕ → Draw)
    (sensor a ts : String) where
  notices-fault_alerts :
      (n : ℕ) (p : String) (r : R) (before : String → ℤ) (ps : List String)
      → before p ≡ count_of a r p
      → map notice_of (fault_alerts F draw sensor a ts n p (decrement a p r).1)
          ++ notices draw sensor a ts before
              (n + length (fault_alerts F draw sensor a ts n p (decrement a p r).1))
              ps
        ≡ notices draw sensor a ts before n (p ∷ ps)
  unfolding notices fault_alerts
  notices-fault_alerts n p r before ps h = ground (arith, decrement_result laws a p r)

  notices-fault_loop :
      (n : ℕ) (ps : List String) (t : Tracker R)
      → IsDistinct ps
      → map notice_of (fault_loop F draw sensor a ts n ps t).1
        ≡ notices draw sensor a ts (count_of a t.redis) n ps
  unfolding fault_loop
  notices-fault_loop n [] t h = unfold notices in refl
  notices-fault_loop n (p ∷ ps) t h =
      let (r, c) = decrement a p t.redis in
      let alerts = fault_alerts F draw sensor a ts n p c in
      let t' : Tracker R = record { redis = r; metrics = t.metrics ++ fault_metrics c } in
      let others : (q : String) → contains q ps ≡ true → count_of a r q ≡ count_of a t.redis q =
        λ q m. ground (
          arith,
          get-decrement laws a p (operational_count a q) t.redis,
          contains-ne p q ps h.0 m,
        ) in
      map-append notice_of alerts (fault_loop F draw sensor a ts (n + length alerts) ps t').1
      ∙ ap (λ l. map notice_of alerts ++ l)
          (notices-fault_loop (n + length alerts) ps t' h.1
            ∙ notices-congr draw sensor a ts (count_of a r) (count_of a t.redis) (n + length alerts)
                ps others)
      ∙ notices-fault_alerts n p t.redis (count_of a t.redis) ps refl

  -- The first fault in a run, with distinct parameters: the alerts are the notices that the counts
  -- before the reading call for, in the order of the parameters, each with the next drawn id.
  pub notices-first_fault :
      (n : ℕ) (ps : List String) (t : Tracker R)
      → IsDistinct ps
      → is_healthy sensor t.redis ≡ true
      → map notice_of (on_sensor_reading F draw n sensor a ps false ts t).1
        ≡ notices draw sensor a ts (count_of a t.redis) n ps
  unfolding on_sensor_reading
  notices-first_fault n ps t h first =
      rw (handle_fault_first laws F draw sensor a ts n ps t first) (
        notices-fault_loop n ps (marked sensor t) h
        ∙ notices-congr draw sensor a ts (count_of a (marked sensor t).redis) (count_of a t.redis) n
            ps (λ q m. ap or_zero (get-marked laws F draw sensor a ts t (operational_count a q))))

  notices-AllHigh :
      (before : String → ℤ) (n : ℕ) (ps : List String)
      → ((q : String) → contains q ps ≡ true → before q ≡ pos 0)
      → All (λ x. x.severity ≡ high) (notices draw sensor a ts before n ps)
  unfolding notices
  notices-AllHigh before n [] h = tt
  notices-AllHigh before n (p ∷ ps) h =
      let tail : (q : String) → contains q ps ≡ true → before q ≡ pos 0 =
        λ q m. h q (ground arith) in
      let first : before p ≡ pos 0 = h p (ground (arith, eq_iff p p)) in
      rw first (refl, (refl, notices-AllHigh before (n + 2) ps tail))

  -- Where no count of the sensor's parameters is stored, as none is before the first fault of an
  -- area, the first fault raises only alerts of high severity, however many sensors the area has.
  pub unseeded_fault_high :
      (n : ℕ) (ps : List String) (t : Tracker R)
      → IsDistinct ps
      → is_healthy sensor t.redis ≡ true
      → ((q : String) → contains q ps ≡ true → d.get t.redis (operational_count a q) ≡ none)
      → All
          (λ x. x.severity ≡ high)
          (map notice_of (on_sensor_reading F draw n sensor a ps false ts t).1)
  unseeded_fault_high n ps t h first unseeded =
      rw (notices-first_fault n ps t h first)
        (notices-AllHigh (count_of a t.redis) n ps (λ q m. ap or_zero (unseeded q m)))
