-- ===== src/RuleEngine/Watchdog/Silence.antt =====
-- What the watchdog does to the fault counters and the counts of the tracker.
use flood_monitoring_and_man.Common.{
  ℕ, String, List, [], ◌∷◌, Option, none, some, false, string_eq, ◌≡◌, refl, arith, eq_iff, All,
  ◌∙◌,
}
use flood_monitoring_and_man.Common.HotState.{HotState}
use flood_monitoring_and_man.Common.Int.{is_negative}
use flood_monitoring_and_man.Common.Redis.{
  Redis, RedisLaws, operational_count, fault_count, or_zero, key_eq,
}
use flood_monitoring_and_man.RuleEngine.Models.{Draw}
use flood_monitoring_and_man.RuleEngine.Redundancy.Faults.{
  is_healthy, fault_count-fault, repeated_fault_silent,
}
use flood_monitoring_and_man.RuleEngine.Watchdog.{Latest, Scan, Silent, find_silent, report, scan}

module _ {R : Type 0} ⦃d : Redis R⦄ where
  abbrev pub FaultKnown : Option Silent → R → Type 0
  FaultKnown none r = Unit
  FaultKnown (some x) r = is_healthy x.sensor r ≡ false

  abbrev pub NonNegative : R → Type 0
  NonNegative r = (s : String) → is_negative (or_zero (d.get r (fault_count s))) ≡ false

module _ {R : Type 0} ⦃d : Redis R⦄ (laws : RedisLaws R) (F : Type 0) (draw : ℕ → Draw) where
  pub NonNegative-report :
      (o : Option Silent) (c : Scan R)
      → NonNegative c.tracker.redis
      → NonNegative (report F draw o c).tracker.redis
  unfolding report
  NonNegative-report none c h s = h s
  NonNegative-report (some x) c h s = ground (
    arith,
    fault_count-fault laws F draw x.sensor x.area x.at c.drawn x.params c.tracker s,
    h x.sensor,
    h s,
  )

  -- A sensor with a fault on record keeps it, and a sensor that is found silent gets one.
  known-report :
      (o p : Option Silent) (c : Scan R)
      → NonNegative c.tracker.redis
      → FaultKnown p c.tracker.redis
      → FaultKnown p (report F draw o c).tracker.redis
  unfolding report is_healthy
  known-report none p c h k = k
  known-report (some x) none c h k = tt
  known-report (some x) (some y) c h k = ground (
    arith,
    fault_count-fault laws F draw x.sensor x.area x.at c.drawn x.params c.tracker y.sensor,
    h x.sensor,
    h y.sensor,
  )

  pub known-report_self :
      (o : Option Silent) (c : Scan R)
      → NonNegative c.tracker.redis
      → FaultKnown o (report F draw o c).tracker.redis
  unfolding report is_healthy
  known-report_self none c h = tt
  known-report_self (some x) c h = ground (
    arith,
    fault_count-fault laws F draw x.sensor x.area x.at c.drawn x.params c.tracker x.sensor,
    h x.sensor,
    eq_iff x.sensor x.sensor,
  )

  count-report_known :
      (o : Option Silent) (c : Scan R) (b q : String)
      → FaultKnown o c.tracker.redis
      → d.get (report F draw o c).tracker.redis (operational_count b q)
        ≡ d.get c.tracker.redis (operational_count b q)
  unfolding report
  count-report_known none c b q k = refl
  count-report_known (some x) c b q k =
      (repeated_fault_silent laws F draw x.sensor x.area x.at c.drawn x.params c.tracker k).2 b q

module _ {F R H M : Type 0} ⦃d : Redis R⦄ ⦃s : HotState H M⦄ (laws : RedisLaws R)
    (loads : M → Option (Latest F)) (parse_time : String → Option ℕ) (timeout now : ℕ)
    (draw : ℕ → Draw) (h : H) where
  abbrev found : String → Option Silent
  found sensor = find_silent loads parse_time timeout now (s.get_latest h sensor)

  abbrev run : List String → Scan R → Scan R
  run = scan loads parse_time timeout now draw h

  NonNegative-scan :
      (keys : List String) (c : Scan R)
      → NonNegative c.tracker.redis
      → NonNegative (run keys c).tracker.redis
  unfolding scan
  NonNegative-scan [] c nn = nn
  NonNegative-scan (k ∷ keys) c nn =
      NonNegative-scan keys (report F draw (found k) c)
        (NonNegative-report laws F draw (found k) c nn)

  known-scan :
      (p : Option Silent) (keys : List String) (c : Scan R)
      → NonNegative c.tracker.redis
      → FaultKnown p c.tracker.redis
      → FaultKnown p (run keys c).tracker.redis
  unfolding scan
  known-scan p [] c nn k = k
  known-scan p (key ∷ keys) c nn k =
      known-scan p keys (report F draw (found key) c)
        (NonNegative-report laws F draw (found key) c nn)
        (known-report laws F draw (found key) p c nn k)

  scan-FaultKnown :
      (keys : List String) (c : Scan R)
      → NonNegative c.tracker.redis
      → All (λ k. FaultKnown (found k) (run keys c).tracker.redis) keys
  unfolding scan
  scan-FaultKnown [] c nn = tt
  scan-FaultKnown (k ∷ keys) c nn =
      let c' = report F draw (found k) c in
      let nn' = NonNegative-report laws F draw (found k) c nn in
      (
        known-scan (found k) keys c' nn' (known-report_self laws F draw (found k) c nn),
        scan-FaultKnown keys c' nn',
      )

  report-FaultKnown :
      (o : Option Silent) (keys : List String) (c : Scan R)
      → NonNegative c.tracker.redis
      → All (λ k. FaultKnown (found k) c.tracker.redis) keys
      → All (λ k. FaultKnown (found k) (report F draw o c).tracker.redis) keys
  report-FaultKnown o [] c nn ks = tt
  report-FaultKnown o (key ∷ keys) c nn ks =
      (known-report laws F draw o (found key) c nn ks.0, report-FaultKnown o keys c nn ks.1)

  count-scan_known :
      (keys : List String) (c : Scan R) (b q : String)
      → NonNegative c.tracker.redis
      → All (λ k. FaultKnown (found k) c.tracker.redis) keys
      → d.get (run keys c).tracker.redis (operational_count b q)
        ≡ d.get c.tracker.redis (operational_count b q)
  unfolding scan
  count-scan_known [] c b q nn ks = refl
  count-scan_known (key ∷ keys) c b q nn ks =
      count-scan_known keys (report F draw (found key) c) b q
        (NonNegative-report laws F draw (found key) c nn)
        (report-FaultKnown (found key) keys c nn ks.1)
      ∙ count-report_known laws F draw (found key) c b q ks.0

  -- Where no fault counter is negative, scanning the same keys again, at the same time and with the
  -- same stored readings, changes no operational count: a sensor that stays silent is taken off its
  -- counts once.
  pub count-rescan :
      (keys : List String) (c : Scan R) (b q : String)
      → NonNegative c.tracker.redis
      → d.get (run keys (run keys c)).tracker.redis (operational_count b q)
        ≡ d.get (run keys c).tracker.redis (operational_count b q)
  count-rescan keys c b q nn =
      count-scan_known keys (run keys c) b q (NonNegative-scan keys c nn)
        (scan-FaultKnown keys c nn)
