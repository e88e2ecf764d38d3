-- ===== src/Bff/Areas/Joined.antt =====
-- What `get_areas_for_user` selects for one area of tables that the geo service made.
use flood_monitoring_and_man.Common.{
  String, List, [], ◌∷◌, Option, none, some, Bool, true, false, ◌&&◌, ◌≡◌, refl, arith, ◌==◌,
  string_eq, eq_iff, first, any, inl, inr, Bool-cases, Distinct, ==-comm, count_if,
}
use flood_monitoring_and_man.Geo.Tables.{Area, Database, same_area}
use flood_monitoring_and_man.Geo.Api.{is_active}
use flood_monitoring_and_man.Geo.References.{Refers}
use flood_monitoring_and_man.Bff.Areas.{AreaRow, row_of, cons_some, join_rows}

abbrev pub is_some : {A : Type 0} → Option A → Bool
is_some none = false
is_some (some a) = true

first-any {ℓ} :
    {A : Type ℓ} (p : A → Bool) (xs : List A) → any p xs ≡ true → (x : A) × (first p xs ≡ some x)
first-any p [] h = absurd (ground (arith, h))
first-any p (x ∷ xs) h = elim (Bool-cases (p x)) [
  | inl here ↦ (x, rw here refl)
  | inr there ↦ let found = first-any p xs (ground (arith, h, there)) in (found.0, rw there found.1)
]

module _ {F : Type 0} (db : Database F) (area : String) where
  same_area-any :
      (a : Area) (areas : List Area)
      → (a.area_id == area) ≡ true
      → any (same_area a) areas ≡ false
      → any (λ b. b.area_id == area) areas ≡ false
  same_area-any a [] same h = refl
  same_area-any a (b ∷ areas) same h =
      ground
        (arith, same_area-any a areas same, eq_iff a.area_id area, ==-comm a.area_id b.area_id, h)

  join_rows-none :
      (areas : List Area)
      → any (λ a. a.area_id == area) areas ≡ false
      → join_rows db (area ∷ []) areas ≡ []
  unfolding join_rows
  join_rows-none [] h = refl
  join_rows-none (a ∷ areas) h = ground (arith, join_rows-none areas, ==-comm area a.area_id, h)

  row_of-linked :
      (a : Area)
      → any (λ c. c.city_id == a.city_id) db.cities ≡ true
      → (r : AreaRow) × (r.area ≡ a) × (row_of db a ≡ some r)
  row_of-linked a linked =
      let city = first-any (λ c. c.city_id == a.city_id) db.cities linked in
      (
        record {
          area = a;
          region_id = city.0.region_id;
          sensor_count = count_if (λ s. (s.area_id == a.area_id) && is_active s) db.sensors;
        },
        refl,
        rw (row_of, city.1) refl,
      )

  -- The row of one area.
  abbrev pub shown_in : List Area → Option AreaRow
  shown_in areas = elim (first (λ a. a.area_id == area) areas) [
    | none ↦ none
    | some a ↦ row_of db a
  ]

  pub join_rows-shown_in :
      (areas : List Area)
      → Distinct same_area areas
      → Refers (λ c. c.city_id) (λ a. a.city_id) db.cities areas
      → (join_rows db (area ∷ []) areas ≡ cons_some (shown_in areas) [])
        × (is_some (shown_in areas) ≡ any (λ a. a.area_id == area) areas)
  unfolding join_rows
  join_rows-shown_in [] distinct linked = (refl, refl)
  join_rows-shown_in (a ∷ areas) distinct linked = elim (Bool-cases (a.area_id == area)) [
    | inl here ↦
        let found = row_of-linked a linked.0 in
        let others = join_rows-none areas (same_area-any a areas here distinct.0) in
        (ground (arith, ==-comm area a.area_id, here, others), ground (arith, here, found.2))
    | inr there ↦
        let rest = join_rows-shown_in areas distinct.1 linked.1 in
        (ground (arith, rest.0, there, ==-comm area a.area_id), ground (arith, rest.1, there))
  ]
