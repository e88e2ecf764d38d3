-- ===== src/Geo/Effect.antt =====
-- When a threshold takes effect: `list_area_thresholds` of services/geo-service/src/geo_service/api.py
-- behind the cache of services/rule-engine/src/rule_engine/threshold_cache.py.
use flood_monitoring_and_man.Common.{
  ℕ, ◌+◌, ◌≤◌, ◌<◌, String, List, [], ◌∷◌, Option, some, none, Bool, true, false, ◌≡◌, refl, ap,
  subst, ◌∙◌, arith, inl, inr, ◌==◌, string_eq, eq_iff, keep_if, if◌then◌else◌, ltb, Bool-cases,
  Option-cases,
}
use flood_monitoring_and_man.Common.Dict.{lookup, insert, lookup-insert}
use flood_monitoring_and_man.RuleEngine.Models.{AreaThreshold}
use flood_monitoring_and_man.RuleEngine.ThresholdCache.{
  CacheEntry, ThresholdCache, Fetch, answered, http_status_error, request_error, fetch,
  get_thresholds, serve, fresh_entry, store_fetched,
}
use flood_monitoring_and_man.Auth.Api.{Reply, ok, http_error}
use flood_monitoring_and_man.Geo.Tables.{Database, area_exists}
use flood_monitoring_and_man.Geo.Api.{list_area_thresholds}
use flood_monitoring_and_man.Geo.Limits.{limits_of}

module _ {F : Type 0} where
  -- `raise_for_status`, and the list of a response that is none of an error.
  abbrev pub answer_of : Reply (List (AreaThreshold F)) → Fetch F
  answer_of (ok ts) = answered ts
  answer_of (http_error n) = http_status_error

  limits_of-keep_if :
      (area parameter : String) (ts : List (AreaThreshold F))
      → limits_of area parameter (keep_if (λ t. t.area_id == area) ts) ≡ limits_of area parameter ts
  limits_of-keep_if area parameter [] = refl
  limits_of-keep_if area parameter (t ∷ ts) = ground (arith, limits_of-keep_if area parameter ts)

-- A call of the rule engine: its area, and the clock before the lookup and after the fetch.
pub record Call : Type 0 where
  pub area : String
  pub now : ℕ
  pub done_at : ℕ

-- For every instant: the tables that an answer shows which arrives then, and whether the request that
-- ends then fails.
module _ {F : Type 0} (order_by : List (AreaThreshold F) → List (AreaThreshold F))
    (db_at : ℕ → Database F) (down : ℕ → Bool) where
  abbrev pub answer_at : ℕ → String → Fetch F
  answer_at t area =
      if down t then request_error else answer_of (list_area_thresholds order_by area (db_at t))

  abbrev pub after_calls : List Call → ThresholdCache F → ThresholdCache F
  after_calls [] cache = cache
  after_calls (c ∷ cs) cache =
      after_calls cs (get_thresholds c.area c.now c.done_at (answer_at c.done_at c.area) cache).0

  -- Every entry was fetched its TTL before it expires.
  abbrev IsTimely : ℕ → ThresholdCache F → Type 0
  IsTimely ttl cache =
      (cache.ttl ≡ ttl)
      × ((area : String) (entry : CacheEntry F)
          → lookup area cache.store ≡ some entry
          → (t : ℕ) × (entry.expires_at ≡ t + ttl)
            × (fetch (answer_at t area) ≡ some entry.thresholds))

  insert-IsTimely :
      (ttl : ℕ) (area : String) (done_at : ℕ) (ts : List (AreaThreshold F))
      (cache : ThresholdCache F)
      → fetch (answer_at done_at area) ≡ some ts
      → IsTimely ttl cache
      → IsTimely ttl (record cache {
        store =
            insert area (record { thresholds = ts; expires_at = done_at + cache.ttl }) cache.store;
      })
  insert-IsTimely ttl area done_at ts cache fetched h = (
    h.0,
    λ a entry found.
        let new : CacheEntry F = record { thresholds = ts; expires_at = done_at + cache.ttl } in
        let at = lookup-insert area a new cache.store in
        elim (Bool-cases (area == a)) [
          | inl same ↦
              let this : area ≡ a = (eq_iff area a).0 same in
              let stored : new ≡ entry = ground (arith, at, found, same) in
              (
                done_at,
                omega (arith, ap (λ e. e.expires_at) stored, h.0),
                subst (λ x. fetch (answer_at done_at x) ≡ some entry.thresholds) this
                    (fetched ∙ ap (λ e. some e.thresholds) stored),
              )
          | inr other ↦ h.1 a entry (ground (arith, at, found, other))
        ],
  )

  serve-IsTimely :
      (ttl : ℕ) (area : String) (done_at : ℕ) (cached : Option (List (AreaThreshold F)))
      (cache : ThresholdCache F)
      → IsTimely ttl cache
      → IsTimely ttl (serve area done_at (answer_at done_at area) cached cache).0
  serve-IsTimely ttl area done_at (some ts) cache h = h
  serve-IsTimely ttl area done_at none cache h =
      elim (Option-cases (fetch (answer_at done_at area))) [
        | inl failed ↦ rw failed h
        | inr (ts, fetched) ↦ rw fetched (insert-IsTimely ttl area done_at ts cache fetched h)
      ]

  after_calls-IsTimely :
      (ttl : ℕ) (cs : List Call) (cache : ThresholdCache F)
      → IsTimely ttl cache
      → IsTimely ttl (after_calls cs cache)
  unfolding get_thresholds
  after_calls-IsTimely ttl [] cache h = h
  after_calls-IsTimely ttl (c ∷ cs) cache h =
      after_calls-IsTimely ttl cs _ (serve-IsTimely ttl c.area c.done_at _ cache h)

  empty-IsTimely : (ttl : ℕ) → IsTimely ttl (record { ttl = ttl; store = [] })
  unfolding lookup
  empty-IsTimely ttl = (refl, λ area entry found. absurd (ground (arith, found)))

  module _
      (keeps : (a p : String) (ts : List (AreaThreshold F))
        → limits_of a p (order_by ts) ≡ limits_of a p ts)
      (start : ℕ) (area parameter : String) (row : AreaThreshold F)
      (up : (t : ℕ) → start ≤ t → down t ≡ false)
      (known : (t : ℕ) → start ≤ t → area_exists area (db_at t) ≡ true)
      (set : (t : ℕ) → start ≤ t → limits_of area parameter (db_at t).thresholds ≡ some row) where
    -- What is served has the row.
    abbrev HasRow : Option (List (AreaThreshold F)) → Type 0
    HasRow served =
        (ts : List (AreaThreshold F)) × (served ≡ some ts)
        × (limits_of area parameter ts ≡ some row)

    fetched-HasRow : (t : ℕ) → start ≤ t → HasRow (fetch (answer_at t area))
    unfolding list_area_thresholds fetch
    fetched-HasRow t later =
        let listed = order_by (keep_if (λ r. r.area_id == area) (db_at t).thresholds) in
        (
          listed,
          ground (arith, up t later, known t later),
          keeps area parameter (keep_if (λ r. r.area_id == area) (db_at t).thresholds)
              ∙ limits_of-keep_if area parameter (db_at t).thresholds
              ∙ set t later,
        )

    missed-HasRow :
        (done_at : ℕ) (cache : ThresholdCache F)
        → start ≤ done_at
        → HasRow (store_fetched area done_at (fetch (answer_at done_at area)) cache).1.thresholds
    missed-HasRow done_at cache later =
        let got = fetched-HasRow done_at later in (got.0, rw got.1 refl, got.2)

    served-HasRow :
        (ttl now done_at : ℕ) (cache : ThresholdCache F) (entry : Option (CacheEntry F))
        → start + ttl ≤ now
        → now ≤ done_at
        → IsTimely ttl cache
        → lookup area cache.store ≡ entry
        → HasRow
            (serve area done_at (answer_at done_at area) (fresh_entry now entry) cache).1.thresholds
    served-HasRow ttl now done_at cache none late later h found =
        missed-HasRow done_at cache (omega (arith, late, later))
    served-HasRow ttl now done_at cache (some entry) late later h found =
        elim (Bool-cases (ltb now entry.expires_at)) [
          | inr old ↦ rw old (missed-HasRow done_at cache (omega (arith, late, later)))
          | inl young ↦
              let fetched = h.1 area entry found in
              let before : now < entry.expires_at = ground (arith, young) in
              let got = fetched-HasRow fetched.0 (omega (arith, fetched.1, late, before)) in
              let same : got.0 ≡ entry.thresholds = ground (arith, got.1, fetched.2) in
              rw young (
                entry.thresholds,
                refl,
                subst (λ ts. limits_of area parameter ts ≡ some row) same got.2,
              )
        ]

    -- Where from an instant on no request fails and every answer that arrives shows tables with the area
    -- and with a certain row for it and a parameter: whatever calls were made before, a call for the area
    -- that starts the TTL after that instant or later is served a list with that row for the parameter.
    -- ORDER BY must keep the row of an area and a parameter.
    pub get_thresholds-in_effect :
        (ttl now done_at : ℕ) (cs : List Call)
        → start + ttl ≤ now
        → now ≤ done_at
        → (ts : List (AreaThreshold F)) × ((get_thresholds area now done_at
              (answer_at done_at area)
              (after_calls cs (record { ttl = ttl; store = [] }))).1.thresholds
            ≡ some ts)
          × (limits_of area parameter ts ≡ some row)
    unfolding get_thresholds
    get_thresholds-in_effect ttl now done_at cs late later =
        served-HasRow ttl now done_at (after_calls cs (record { ttl = ttl; store = [] })) _ late
          later
          (after_calls-IsTimely ttl cs (record { ttl = ttl; store = [] }) (empty-IsTimely ttl)) refl
