-- ===== src/Bff/HotState/Extremes.antt =====
-- What the loop of `get_area_summary` finds: the highest level and the latest time.
use flood_monitoring_and_man.Common.{
  String, List, [], ◌∷◌, Option, none, some, Bool, true, false, ◌≡◌, ◌⊎◌, inl, inr, refl, arith,
  length, take, All, Bool-cases, if◌then◌else◌, text_gt, text_gt_trans, text_gt_irrefl, ◌∙◌,
}
use flood_monitoring_and_man.Common.Float.{Float, FloatLaws}
use flood_monitoring_and_man.Wire.Validation.{Payload}
use flood_monitoring_and_man.Telemetry.Consumer.{Raw}
use flood_monitoring_and_man.Bff.HotState.{
  Aggregates, AreaSummary, ts_of, readings_of, later, higher, aggregate, summary_of,
  get_area_summary,
}

-- No value of a key is above the best, and the best is the start or one of the values.
module _ {R A : Type 0} (gt : A → A → Bool) (key : R → Option A) where
  abbrev pub IsCovered : Option A → Option A → Type 0
  IsCovered best none = Unit
  IsCovered none (some x) = ⊥
  IsCovered (some b) (some x) = gt x b ≡ false

  abbrev pub IsReached : Option A → List R → Option A → Type 0
  IsReached start [] best = best ≡ start
  IsReached start (r ∷ rs) best = (best ≡ key r) ⊎ IsReached start rs best

  pub record IsBest (rs : List R) (best : Option A) : Type 0 where
    pub covered : All (λ r. IsCovered best (key r)) rs
    pub reached : IsReached none rs best

  -- The value of one more key.
  abbrev pub raise_by : Option A → Option A → Option A
  raise_by best none = best
  raise_by none (some x) = some x
  raise_by (some b) (some x) = if gt x b then some x else some b

  abbrev pub best_of : Option A → List R → Option A
  best_of best [] = best
  best_of best (r ∷ rs) = best_of (raise_by best (key r)) rs

  module _ (gt_irrefl : (a : A) → gt a a ≡ false)
      (gt_trans : (a b c : A) → gt a b ≡ true → gt b c ≡ true → gt a c ≡ true) where
    raise_by-covers : (best x : Option A) → IsCovered (raise_by best x) x
    raise_by-covers best none = tt
    raise_by-covers none (some x) = gt_irrefl x
    raise_by-covers (some b) (some x) = elim (Bool-cases (gt x b)) [
      | inl above ↦ rw above (gt_irrefl x)
      | inr below ↦ rw below below
    ]

    raise_by-keeps : (best x y : Option A) → IsCovered best y → IsCovered (raise_by best x) y
    raise_by-keeps best none y h = h
    raise_by-keeps best (some x) none h = tt
    raise_by-keeps none (some x) (some y) h = absurd h
    raise_by-keeps (some b) (some x) (some y) h = elim (Bool-cases (gt x b)) [
      | inl above ↦ rw above (ground (arith, gt_trans y x b, above, h))
      | inr below ↦ rw below h
    ]

    best_of-keeps :
        (rs : List R) (best y : Option A) → IsCovered best y → IsCovered (best_of best rs) y
    best_of-keeps [] best y h = h
    best_of-keeps (r ∷ rs) best y h =
        best_of-keeps rs (raise_by best (key r)) y (raise_by-keeps best (key r) y h)

    best_of-covers :
        (rs : List R) (best : Option A) → All (λ r. IsCovered (best_of best rs) (key r)) rs
    best_of-covers [] best = tt
    best_of-covers (r ∷ rs) best = (
      best_of-keeps rs (raise_by best (key r)) (key r) (raise_by-covers best (key r)),
      best_of-covers rs (raise_by best (key r)),
    )

    raise_by-one : (best x : Option A) → (raise_by best x ≡ x) ⊎ (raise_by best x ≡ best)
    raise_by-one best none = inr refl
    raise_by-one none (some x) = inl refl
    raise_by-one (some b) (some x) = elim (Bool-cases (gt x b)) [
      | inl above ↦ inl (rw above refl)
      | inr below ↦ inr (rw below refl)
    ]

    IsReached-raised :
        (r : R) (rs : List R) (start best : Option A)
        → IsReached (raise_by start (key r)) rs best
        → IsReached start (r ∷ rs) best
    IsReached-raised r [] start best h = elim (raise_by-one start (key r)) [
      | inl same ↦ inl (h ∙ same)
      | inr kept ↦ inr (h ∙ kept)
    ]
    IsReached-raised r (q ∷ rs) start best (inl here) = inr (inl here)
    IsReached-raised r (q ∷ rs) start best (inr there) =
        elim (IsReached-raised r rs start best there) [
          | inl same ↦ inl same
          | inr later ↦ inr (inr later)
        ]

    best_of-IsReached : (rs : List R) (start : Option A) → IsReached start rs (best_of start rs)
    best_of-IsReached [] start = refl
    best_of-IsReached (r ∷ rs) start =
        IsReached-raised r rs start (best_of start (r ∷ rs))
          (best_of-IsReached rs (raise_by start (key r)))

    pub best_of-IsBest : (rs : List R) → IsBest rs (best_of none rs)
    best_of-IsBest rs = record {
      covered = best_of-covers rs none;
      reached = best_of-IsReached rs none;
    }

raise_by-later :
    (F : Type 0) (best x : Option String)
    → later best x ≡ raise_by {R = Payload F} text_gt ts_of best x
raise_by-later F best none = refl
raise_by-later F none (some x) = refl
raise_by-later F (some b) (some x) = refl

-- The levels, and the texts of the times.
module _ {F : Type 0} ⦃f : Float F⦄ where
  abbrev pub water_of : Payload F → Option F
  water_of r = r.measurements.water_level_m

  raise_by-higher : (best x : Option F) → higher best x ≡ raise_by (λ a b. f.lt b a) water_of best x
  raise_by-higher best none = refl
  raise_by-higher none (some x) = refl
  raise_by-higher (some b) (some x) = refl

  aggregate-best_of :
      (rs : List (Payload F)) (water : Option F) (ts : Option String)
      → aggregate (record { max_water_level_m = water; latest_ts = ts }) rs ≡ record {
        max_water_level_m = best_of (λ a b. f.lt b a) water_of water rs;
        latest_ts = best_of text_gt ts_of ts rs;
      }
  unfolding aggregate
  aggregate-best_of [] water ts = refl
  aggregate-best_of (r ∷ rs) water ts =
      rw (raise_by-higher water (water_of r), raise_by-later F ts (ts_of r))
        (aggregate-best_of rs _ _)

  -- The two aggregates of some readings.
  pub record IsAggregate (rs : List (Payload F)) (a : Aggregates F) : Type 0 where
    pub highest : IsBest (λ a b. f.lt b a) water_of rs a.max_water_level_m
    pub latest : IsBest text_gt ts_of rs a.latest_ts

  abbrev pub AreAggregates : List (Payload F) → Option (Aggregates F) → Type 0
  AreAggregates rs none = length rs ≡ 0
  AreAggregates rs (some a) = IsAggregate rs a

  pub record IsSummary (rs : List (Payload F)) (s : AreaSummary F) : Type 0 where
    pub counted : s.sensor_count ≡ length rs
    pub capped : s.latest_readings ≡ take 5 rs
    pub aggregated : AreAggregates rs s.aggregates

  module _ (laws : FloatLaws F) where
    aggregate-IsAggregate :
        (rs : List (Payload F))
        → IsAggregate rs (aggregate (record { max_water_level_m = none; latest_ts = none }) rs)
    aggregate-IsAggregate rs = rw (aggregate-best_of rs none none) (record {
      highest =
          best_of-IsBest (λ a b. f.lt b a) water_of laws.lt_irrefl
            (λ a b c h k. laws.lt_trans c b a k h) rs;
      latest = best_of-IsBest text_gt ts_of text_gt_irrefl text_gt_trans rs;
    })

    summary_of-IsSummary :
        (area : String) (rs : List (Payload F)) → IsSummary rs (summary_of area rs)
    summary_of-IsSummary area [] = record { counted = refl; capped = refl; aggregated = refl }
    summary_of-IsSummary area (r ∷ rs) = record {
      counted = refl;
      capped = refl;
      aggregated = aggregate-IsAggregate (r ∷ rs);
    }

    -- The summary counts the sensors whose key can be read and lists the first five of their readings.
    -- Its level and its time are no less than those of any reading, each is that of a reading or absent,
    -- and it is absent only where no reading has one.
    pub get_area_summary-IsSummary :
        (redis : String → Option (Raw F)) (area : String) (sensors : List String)
        → IsSummary (readings_of redis sensors) (get_area_summary redis area sensors)
    unfolding get_area_summary
    get_area_summary-IsSummary redis area sensors =
        summary_of-IsSummary area (readings_of redis sensors)
