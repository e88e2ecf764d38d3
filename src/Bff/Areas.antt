-- ===== src/Bff/Areas.antt =====
-- The endpoints `list_areas` and `area_detail` of services/dashboard-bff/src/dashboard_bff/api.py, with
-- the queries `get_areas_for_user` and `get_area_thresholds` of db.py on the geo service's tables.
mod Joined
pub mod Detail
use flood_monitoring_and_man.Common.{
  ℕ, String, List, [], ◌∷◌, ◌++◌, Option, none, some, Bool, true, false, ◌&&◌, ◌≡◌, refl, arith,
  ◌==◌, string_eq, eq_iff, if◌then◌else◌, map, keep_if, count_if, first, any, inl, inr, Bool-cases,
  Option-cases, All,
}
use flood_monitoring_and_man.Telemetry.Consumer.{Raw}
use flood_monitoring_and_man.RuleEngine.Models.{AreaThreshold}
use flood_monitoring_and_man.Auth.Api.{Reply, ok, http_error}
use flood_monitoring_and_man.Common.Float.{Float}
use flood_monitoring_and_man.Geo.Tables.{City, Area, Database, area_exists, same_area}
use flood_monitoring_and_man.Geo.Api.{is_active}
use flood_monitoring_and_man.Geo.Hierarchy.{IsLinked}
use flood_monitoring_and_man.Bff.Scope.{elem, UserContext}
use flood_monitoring_and_man.Bff.Shown.{threshold_to_dict}
use flood_monitoring_and_man.Bff.HotState.{AreaSummary, summary_of, readings_of, get_area_summary}

-- A row of the query.
pub record AreaRow : Type 0 where
  pub area : Area
  pub region_id : String
  pub sensor_count : ℕ

pub record AreaDetail (F : Type 0) : Type 0 where
  pub row : AreaRow
  pub thresholds : List (AreaThreshold String)
  pub live_summary : AreaSummary F

abbrev pub cons_some : Option AreaRow → List AreaRow → List AreaRow
cons_some none rows = rows
cons_some (some r) rows = r ∷ rows

module _ {F : Type 0} where
  -- The area's city, by its primary key, and the count of the active sensors.
  abbrev pub row_of : Database F → Area → Option AreaRow
  row_of db a = elim (first (λ c. c.city_id == a.city_id) db.cities) [
    | none ↦ none
    | some c ↦ some (record {
      area = a;
      region_id = c.region_id;
      sensor_count = count_if (λ s. (s.area_id == a.area_id) && is_active s) db.sensors;
    })
  ]

  unfoldable pub join_rows : Database F → List String → List Area → List AreaRow
  join_rows db ids [] = []
  join_rows db ids (a ∷ areas) =
      let rest = join_rows db ids areas in
      if elem a.area_id ids then cons_some (row_of db a) rest else rest

  -- `order_by` is what ORDER BY a.name makes of the rows.
  unfoldable pub get_areas_for_user :
      (List AreaRow → List AreaRow) → List String → Database F → List AreaRow
  unfolding join_rows
  get_areas_for_user order_by ids db = order_by (join_rows db ids db.areas)

  unfoldable pub get_area_thresholds :
      (F → String) → String → Database F → List (AreaThreshold String)
  get_area_thresholds str_of area db =
      map (threshold_to_dict str_of) (keep_if (λ t. t.area_id == area) db.thresholds)

module _ {F : Type 0} ⦃f : Float F⦄ (redis : String → Option (Raw F)) where
  -- No area, no query; and the summary is asked for no sensors.
  unfoldable pub list_user_areas :
      (List AreaRow → List AreaRow) → Database F → UserContext → List (AreaRow × AreaSummary F)
  unfolding get_areas_for_user
  list_user_areas order_by db user = elim user.area_ids [
    | [] ↦ []
    | a ∷ as_ ↦
        map (λ r. (r, get_area_summary redis r.area.area_id []))
          (get_areas_for_user order_by (a ∷ as_) db)
  ]

  abbrev pub detail_of : (F → String) → Database F → String → List AreaRow → Reply (AreaDetail F)
  detail_of str_of db area [] = http_error 404
  detail_of str_of db area (r ∷ rs) = ok (record {
    row = r;
    thresholds = get_area_thresholds str_of area db;
    live_summary = get_area_summary redis area [];
  })

  unfoldable pub area_detail :
      (F → String)
      → (List AreaRow → List AreaRow)
      → Database F
      → String
      → UserContext
      → Reply (AreaDetail F)
  unfolding get_areas_for_user get_area_thresholds
  area_detail str_of order_by db area user =
      if elem area user.area_ids
      then detail_of str_of db area (get_areas_for_user order_by (area ∷ []) db)
      else http_error 403
