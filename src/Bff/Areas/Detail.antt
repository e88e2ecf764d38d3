-- ===== src/Bff/Areas/Detail.antt =====
-- The reply of `area_detail`, for tables that the geo service made.
use flood_monitoring_and_man.Common.{
  String, List, [], ◌∷◌, Option, none, some, Bool, true, false, ◌&&◌, ◌≡◌, refl, arith, ◌==◌,
  string_eq, eq_iff, first, any, inl, inr, Bool-cases, Option-cases, count_if, map, keep_if, subst,
  sym,
}
use flood_monitoring_and_man.Common.Float.{Float}
use flood_monitoring_and_man.Telemetry.Consumer.{Raw}
use flood_monitoring_and_man.RuleEngine.Models.{AreaThreshold}
use flood_monitoring_and_man.Alerts.Table.{is_none}
use flood_monitoring_and_man.Bff.Shown.{threshold_to_dict}
use flood_monitoring_and_man.Auth.Api.{Reply, ok, http_error}
use flood_monitoring_and_man.Geo.Tables.{City, Area, Database, area_exists}
use flood_monitoring_and_man.Geo.Api.{is_active}
use flood_monitoring_and_man.Geo.Hierarchy.{IsLinked}
use flood_monitoring_and_man.Bff.Scope.{elem, UserContext}
use flood_monitoring_and_man.Bff.HotState.{readings_of, get_area_summary}
use flood_monitoring_and_man.Bff.Areas.{
  AreaRow, AreaDetail, get_areas_for_user, get_area_thresholds, area_detail,
}
use flood_monitoring_and_man.Bff.Areas.Joined.{is_some, shown_in, join_rows-shown_in}

module _ {ℓ} {A : Type ℓ} (p : A → Bool) where
  first-holds : (xs : List A) (x : A) → first p xs ≡ some x → p x ≡ true
  first-holds [] x found = cc
  first-holds (y ∷ ys) x found = ground (arith, first-holds ys x)

  -- The element that is found passes another test too.
  first-any_also :
      (q : A → Bool) (xs : List A) (x : A)
      → first p xs ≡ some x
      → q x ≡ true
      → any (λ y. p y && q y) xs ≡ true
  first-any_also q [] x found also = cc
  first-any_also q (y ∷ ys) x found also = ground (arith, first-any_also q ys x)

  count_if-same :
      (q : A → Bool) (xs : List A) → ((x : A) → p x ≡ q x) → count_if p xs ≡ count_if q xs
  count_if-same q [] same = refl
  count_if-same q (x ∷ xs) same = ground (arith, same x, count_if-same q xs same)

  count_if-map-keep_if :
      {B : Type ℓ} (g : A → B) (q : B → Bool) (xs : List A)
      → count_if q (map g (keep_if p xs)) ≡ count_if (λ x. p x && q (g x)) xs
  count_if-map-keep_if g q [] = refl
  count_if-map-keep_if g q (x ∷ xs) = ground (arith, count_if-map-keep_if g q xs)

module _ {F : Type 0} (str_of : F → String) (db : Database F) (area : String) where
  -- What the tables say of the area: its row, the region of its city, the number of its sensors that are
  -- not decommissioned, and, counted by any test, its thresholds with their numbers as texts.
  pub record IsDetail (d : AreaDetail F) : Type 0 where
    pub area_row : first (λ a. a.area_id == area) db.areas ≡ some d.row.area
    pub region :
        any (λ c. (c.city_id == d.row.area.city_id) && (c.region_id == d.row.region_id)) db.cities
        ≡ true
    pub sensors :
        d.row.sensor_count
        ≡ count_if (λ s. (s.area_id == area) && is_none s.decommissioned_at) db.sensors
    pub limits :
        (q : AreaThreshold String → Bool)
        → count_if q d.thresholds
          ≡ count_if (λ t. (t.area_id == area) && q (threshold_to_dict str_of t)) db.thresholds
    pub nothing_live :
        d.live_summary
        ≡ record { area_id = area; sensor_count = 0; aggregates = none; latest_readings = [] }

  -- By whether the area is in the scope and whether it exists.
  abbrev pub IsAnswer : Bool → Bool → Reply (AreaDetail F) → Type 0
  IsAnswer false exists reply = reply ≡ http_error 403
  IsAnswer true false reply = reply ≡ http_error 404
  IsAnswer true true reply = (d : AreaDetail F) × (reply ≡ ok d) × IsDetail d

  abbrev row_for : Area → City → AreaRow
  row_for a c = record {
    area = a;
    region_id = c.region_id;
    sensor_count = count_if (λ s. (s.area_id == a.area_id) && is_active s) db.sensors;
  }

  abbrev detail_for : AreaRow → AreaDetail F
  detail_for r = record {
    row = r;
    thresholds = get_area_thresholds str_of area db;
    live_summary = record {
      area_id = area;
      sensor_count = 0;
      aggregates = none;
      latest_readings = [];
    };
  }

  detail_for-IsDetail :
      (a : Area) (c : City)
      → first (λ b. b.area_id == area) db.areas ≡ some a
      → first (λ d. d.city_id == a.city_id) db.cities ≡ some c
      → IsDetail (detail_for (row_for a c))
  unfolding get_area_thresholds
  detail_for-IsDetail a c found city =
      let here : a.area_id ≡ area =
        (eq_iff a.area_id area).0 (first-holds (λ b. b.area_id == area) db.areas a found) in
      record {
        area_row = found;
        region =
            first-any_also (λ d. d.city_id == a.city_id) (λ d. d.region_id == c.region_id) db.cities
              c city ((eq_iff c.region_id c.region_id).1 refl);
        sensors =
            count_if-same (λ s. (s.area_id == a.area_id) && is_active s)
              (λ s. (s.area_id == area) && is_none s.decommissioned_at) db.sensors
              (λ s. rw here (ground arith));
        limits = λ q.
            count_if-map-keep_if (λ t. t.area_id == area) (threshold_to_dict str_of) q
              db.thresholds;
        nothing_live = refl;
      }

  shown_in-row :
      (r : AreaRow)
      → shown_in db area db.areas ≡ some r
      → (a : Area) × (c : City) × (first (λ b. b.area_id == area) db.areas ≡ some a)
        × (first (λ d. d.city_id == a.city_id) db.cities ≡ some c)
        × (row_for a c ≡ r)
  shown_in-row r shown = elim (Option-cases (first (λ b. b.area_id == area) db.areas)) [
    | inl missing ↦ absurd (ground (arith, shown, missing))
    | inr (a, found) ↦ elim (Option-cases (first (λ d. d.city_id == a.city_id) db.cities)) [
      | inl missing ↦ absurd (ground (arith, shown, found, missing))
      | inr (c, city) ↦ (a, c, found, city, ground (arith, shown, found, city))
    ]
  ]

  -- The reply by whether the area is in the scope, and its row.
  abbrev reply_for : Bool → Option AreaRow → Reply (AreaDetail F)
  reply_for false o = http_error 403
  reply_for true none = http_error 404
  reply_for true (some r) = ok (detail_for r)

  reply_for-IsAnswer :
      (in_scope exists : Bool) (o : Option AreaRow)
      → shown_in db area db.areas ≡ o
      → is_some o ≡ exists
      → IsAnswer in_scope exists (reply_for in_scope o)
  reply_for-IsAnswer false exists o shown known = refl
  reply_for-IsAnswer true false none shown known = refl
  reply_for-IsAnswer true true none shown known = cc
  reply_for-IsAnswer true false (some r) shown known = cc
  reply_for-IsAnswer true true (some r) shown known =
      let (a, c, found, city, same) = shown_in-row r shown in
      (
        detail_for r,
        refl,
        subst (λ r'. IsDetail (detail_for r')) same (detail_for-IsDetail a c found city),
      )

module _ {F : Type 0} ⦃f : Float F⦄ (str_of : F → String) where
  -- In tables with distinct keys and known references, where ORDER BY leaves lists of up to one row as
  -- they are: an area outside the scope is refused with 403 and an unknown one with 404; any other area
  -- is shown with its row, the region of its city, the number of its sensors that are not decommissioned,
  -- its own thresholds, each once and with texts for the bounds, and no other thresholds, and with a live
  -- summary that is empty whatever Redis holds.
  pub area_detail-shown :
      (redis : String → Option (Raw F)) (order_by : List AreaRow → List AreaRow) (db : Database F)
      (area : String) (user : UserContext)
      → IsLinked db
      → order_by [] ≡ []
      → ((r : AreaRow) → order_by (r ∷ []) ≡ r ∷ [])
      → IsAnswer str_of db area
          (elem area user.area_ids)
          (area_exists area db)
          (area_detail redis str_of order_by db area user)
  unfolding area_detail get_areas_for_user get_area_summary get_area_thresholds readings_of
  area_detail-shown redis order_by db area user linked nil one =
      let facts = join_rows-shown_in db area db.areas linked.areas linked.cities_known in
      let reply : area_detail redis str_of order_by db area user
          ≡ reply_for str_of db area (elem area user.area_ids) (shown_in db area db.areas) =
        elim (Bool-cases (elem area user.area_ids)) [
          | inr out ↦ rw (area_detail, out) refl
          | inl in_scope ↦ elim (Option-cases (shown_in db area db.areas)) [
            | inl missing ↦
                rw (area_detail, in_scope, get_areas_for_user, facts.0, missing, nil) refl
            | inr (r, found) ↦
                rw (area_detail, in_scope, get_areas_for_user, facts.0, found, one r) refl
          ]
        ] in
      subst (IsAnswer str_of db area (elem area user.area_ids) (area_exists area db)) (sym reply) (
        reply_for-IsAnswer str_of db area (elem area user.area_ids) (area_exists area db)
          (shown_in db area db.areas) refl facts.1)
