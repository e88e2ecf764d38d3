-- ===== src/Geo/Limits.antt =====
-- The thresholds that services/geo-service/src/geo_service/api.py stores, by area and parameter.
use flood_monitoring_and_man.Common.{
  String, List, [], ◌∷◌, Option, some, true, false, ◌&&◌, ◌≡◌, refl, ap, arith, inl, inr, ◌==◌,
  string_eq, eq_iff, first, if◌then◌else◌, Bool-cases,
}
use flood_monitoring_and_man.RuleEngine.Models.{AreaThreshold}
use flood_monitoring_and_man.Auth.Api.{ok}
use flood_monitoring_and_man.Geo.Tables.{Database, area_exists, same_threshold}
use flood_monitoring_and_man.Geo.Api.{AreaThresholdUpsert, upsert, upsert_area_threshold}

module _ {F : Type 0} where
  -- The row of an area and a parameter.
  abbrev pub limits_of : String → String → List (AreaThreshold F) → Option (AreaThreshold F)
  limits_of area parameter ts = first (λ t. (t.area_id == area) && (t.parameter == parameter)) ts

  not_same :
      (area parameter : String) (new t : AreaThreshold F)
      → same_threshold t new ≡ false
      → ((t.area_id == area) && (t.parameter == parameter)) ≡ true
      → ((new.area_id == area) && (new.parameter == parameter)) ≡ false
  not_same area parameter new t differs here = ground (
    arith,
    eq_iff t.area_id new.area_id,
    eq_iff t.parameter new.parameter,
    eq_iff t.area_id area,
    eq_iff t.parameter parameter,
    eq_iff new.area_id area,
    eq_iff new.parameter parameter,
  )

  limits_of-upsert :
      (area parameter : String) (new : AreaThreshold F) (ts : List (AreaThreshold F))
      → limits_of area parameter (upsert new ts) ≡ (
          if (new.area_id == area) && (new.parameter == parameter)
          then some new
          else limits_of area parameter ts)
  unfolding upsert
  limits_of-upsert area parameter new [] = refl
  limits_of-upsert area parameter new (t ∷ ts) = elim (Bool-cases (same_threshold t new)) [
    | inl same ↦
        let areas : t.area_id ≡ new.area_id = ground (arith, same, eq_iff t.area_id new.area_id) in
        let parameters : t.parameter ≡ new.parameter =
          ground (arith, same, eq_iff t.parameter new.parameter) in
        rw (same, areas, parameters)
          (elim (Bool-cases ((new.area_id == area) && (new.parameter == parameter))) [
            | inl here ↦ rw here refl
            | inr other ↦ rw other refl
          ])
    | inr differs ↦
        rw (differs, limits_of-upsert area parameter new ts)
          (elim (Bool-cases ((t.area_id == area) && (t.parameter == parameter))) [
            | inr other ↦ rw other refl
            | inl here ↦ rw (here, not_same area parameter new t differs here) refl
          ])
  ]

  upsert-again :
      (old new : AreaThreshold F) (ts : List (AreaThreshold F))
      → same_threshold old new ≡ true
      → upsert new (upsert old ts) ≡ upsert new ts
  unfolding upsert
  upsert-again old new [] same = ground (arith, same)
  upsert-again old new (t ∷ ts) same = ground (
    arith,
    same,
    eq_iff t.area_id new.area_id,
    eq_iff t.parameter new.parameter,
    eq_iff t.area_id old.area_id,
    eq_iff t.parameter old.parameter,
    eq_iff old.area_id new.area_id,
    eq_iff old.parameter new.parameter,
    upsert-again old new ts same,
  )

  -- For an area that exists, the row that is answered is from then on the one of its area and parameter,
  -- the rows of all other areas and parameters are what they were, and a second request for the same
  -- area and parameter leaves the table as if the first had not come.
  pub upsert_area_threshold-stored :
      (area parameter : String) (body body' : AreaThresholdUpsert F) (db : Database F)
      (a p : String)
      → area_exists area db ≡ true
      → let after = (upsert_area_threshold area parameter body db).0 in
        (new : AreaThreshold F) × ((upsert_area_threshold area parameter body db).1 ≡ ok new)
        × (limits_of a p after.thresholds
            ≡ (if (area == a) && (parameter == p) then some new else limits_of a p db.thresholds))
        × ((upsert_area_threshold area parameter body' after).0
            ≡ (upsert_area_threshold area parameter body' db).0)
  unfolding upsert_area_threshold
  upsert_area_threshold-stored area parameter body body' db a p found =
      let row : AreaThreshold F = record {
        area_id = area;
        parameter = parameter;
        warning_lo = body.warning_lo;
        warning_hi = body.warning_hi;
        critical_lo = body.critical_lo;
        critical_hi = body.critical_hi;
      } in
      let row' : AreaThreshold F = record {
        area_id = area;
        parameter = parameter;
        warning_lo = body'.warning_lo;
        warning_hi = body'.warning_hi;
        critical_lo = body'.critical_lo;
        critical_hi = body'.critical_hi;
      } in
      rw found (
        row,
        refl,
        limits_of-upsert a p row db.thresholds,
        rw found (
            ap (λ ts. record db { thresholds = ts })
              (upsert-again row row' db.thresholds
                (ground (arith, eq_iff area area, eq_iff parameter parameter)))),
      )
