-- ===== src/RuleEngine/ThresholdCache.antt =====
-- `ThresholdCache` of services/rule-engine/src/rule_engine/threshold_cache.py. `time.monotonic()` and
-- the TTL are numbers of one unit of time; the clock is read before the lookup and again after the
-- fetch. What the geo-service answers is an argument.
pub mod Freshness
use flood_monitoring_and_man.Common.{
  ℕ, ◌+◌, String, List, [], ◌∷◌, Option, none, some, Bool, true, false, string_eq, ltb,
  if◌then◌else◌,
}
use flood_monitoring_and_man.Common.Dict.{Dict, lookup, insert, remove}
use flood_monitoring_and_man.RuleEngine.Models.{AreaThreshold}

pub record CacheEntry (F : Type 0) : Type 0 where
  pub thresholds : List (AreaThreshold F)
  pub expires_at : ℕ

pub record ThresholdCache (F : Type 0) : Type 0 where
  pub ttl : ℕ
  pub store : Dict String (CacheEntry F)

-- The request to the geo-service and the parsing of its answer: the two exceptions that `_fetch`
-- catches, and any other (a body that is no JSON or fails validation), which leaves it.
pub data Fetch (F : Type 0) : Type 0 where
  answered : List (AreaThreshold F) → Fetch F
  http_status_error request_error other_error : Fetch F

-- `_fetch`: `none` is an exception.
unfoldable pub fetch : {F : Type 0} → Fetch F → Option (List (AreaThreshold F))
fetch (answered ts) = some ts
fetch http_status_error = some []
fetch request_error = some []
fetch other_error = none

-- `entry is not None and time.monotonic() < entry.expires_at`
abbrev pub fresh_entry : {F : Type 0} → ℕ → Option (CacheEntry F) → Option (List (AreaThreshold F))
fresh_entry now none = none
fresh_entry now (some e) = if ltb now e.expires_at then some e.thresholds else none

-- What `get_thresholds` returns: the thresholds and whether the cache was hit, or an exception.
pub record Served (F : Type 0) : Type 0 where
  pub thresholds : Option (List (AreaThreshold F))
  pub hit : Bool

module _ {F : Type 0} where
  abbrev pub store_fetched :
      String → ℕ → Option (List (AreaThreshold F)) → ThresholdCache F → ThresholdCache F × Served F
  store_fetched area done_at none c = (c, record { thresholds = none; hit = false })
  store_fetched area done_at (some ts) c = (
    record c {
      store = insert area (record { thresholds = ts; expires_at = done_at + c.ttl }) c.store;
    },
    record { thresholds = some ts; hit = false },
  )

  abbrev pub serve :
      String
      → ℕ
      → Fetch F
      → Option (List (AreaThreshold F))
      → ThresholdCache F
      → ThresholdCache F × Served F
  serve area done_at answer (some ts) c = (c, record { thresholds = some ts; hit = true })
  serve area done_at answer none c = store_fetched area done_at (fetch answer) c

  unfoldable pub get_thresholds :
      String → ℕ → ℕ → Fetch F → ThresholdCache F → ThresholdCache F × Served F
  unfolding fetch
  get_thresholds area now done_at answer c =
      serve area done_at answer (fresh_entry now (lookup area c.store)) c

  unfoldable pub invalidate : String → ThresholdCache F → ThresholdCache F
  invalidate area c = record c { store = remove area c.store }
