-- ===== src/RuleEngine/ThresholdCache/Freshness.antt =====
-- How long the cache serves what it stored.
use flood_monitoring_and_man.Common.{
  ℕ, Option-cases, inl, inr, ◌+◌, String, List, some, true, false, string_eq, ltb, ◌==◌,
  if◌then◌else◌, ◌≡◌, arith, eq_iff,
}
use flood_monitoring_and_man.Common.Dict.{lookup-insert, lookup-remove}
use flood_monitoring_and_man.RuleEngine.Models.{AreaThreshold}
use flood_monitoring_and_man.RuleEngine.ThresholdCache.{
  ThresholdCache, Fetch, fetch, get_thresholds, invalidate,
}

module _ {F : Type 0} (area : String) (now done_at : ℕ) (answer : Fetch F)
    (c : ThresholdCache F) where
  -- After a miss whose fetch gave `ts`, a call for the same area serves `ts` from the cache before
  -- the TTL has passed since the fetch, and asks the geo-service again from then on.
  pub get_thresholds-again :
      (ts : List (AreaThreshold F)) (now' done_at' : ℕ) (answer' : Fetch F)
      → (get_thresholds area now done_at answer c).1 ≡ record { thresholds = some ts; hit = false }
      → (get_thresholds area now' done_at' answer' (get_thresholds area now done_at answer c).0).1
        ≡ (if ltb now' (done_at + c.ttl)
            then record { thresholds = some ts; hit = true }
            else record { thresholds = fetch answer'; hit = false })
  unfolding get_thresholds
  get_thresholds-again ts now' done_at' answer' h = ground (
    arith,
    eq_iff area area,
    lookup-insert area area (record { thresholds = ts; expires_at = done_at + c.ttl }) c.store,
  )

  -- A call for one area leaves what is served for another alone.
  pub get_thresholds-other :
      (other : String) (now' done_at' : ℕ) (answer' : Fetch F)
      → (area == other) ≡ false
      → (get_thresholds other now' done_at' answer' (get_thresholds area now done_at answer c).0).1
        ≡ (get_thresholds other now' done_at' answer' c).1
  unfolding get_thresholds
  get_thresholds-other other now' done_at' answer' ne = elim (Option-cases (fetch answer)) [
    | inl failed ↦ ground arith
    | inr (ts, fetched) ↦ ground (
      arith,
      lookup-insert area other (record { thresholds = ts; expires_at = done_at + c.ttl }) c.store,
    )
  ]

  -- After `invalidate` the next call asks the geo-service.
  pub get_thresholds-invalidate :
      (get_thresholds area now done_at answer (invalidate area c)).1
      ≡ record { thresholds = fetch answer; hit = false }
  unfolding get_thresholds invalidate
  get_thresholds-invalidate = ground (arith, eq_iff area area, lookup-remove area area c.store)
