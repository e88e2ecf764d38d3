-- ===== src/Bff/Authority.antt =====
-- The areas of a user are those of its jurisdiction, whether they come from the cache or not.
use flood_monitoring_and_man.Common.{
  String, List, [], ◌∷◌, ◌++◌, Bool, false, ◌&&◌, ◌||◌, ◌==◌, string_eq, pair_eq, if◌then◌else◌,
  ◌≡◌, refl, arith,
}
use flood_monitoring_and_man.Bff.Scope.{
  list_eq, elem, City, Area, Geography, areas_of_cities, join_area, areas_of_regions,
  resolve_area_ids,
}

-- Some city has the id and lies in one of the regions.
abbrev pub in_regions : List String → String → List City → Bool
in_regions regions city [] = false
in_regions regions city (c ∷ cities) =
    ((city == c.city_id) && elem c.region_id regions) || in_regions regions city cities

abbrev pub any_area : (Area → Bool) → String → List Area → Bool
any_area p area [] = false
any_area p area (a ∷ areas) = ((a.area_id == area) && p a) || any_area p area areas

-- What a role's jurisdiction means: an area manager's areas, the areas of a city manager's cities, the
-- areas of the cities of a regional manager's regions.
unfoldable pub in_scope : Geography → String → List String → String → Bool
in_scope g role jurisdiction area =
    if role == "area_manager"
    then elem area jurisdiction
    else if role == "city_manager"
    then any_area (λ a. elem a.city_id jurisdiction) area g.areas
    else if role == "regional_manager"
    then any_area (λ a. in_regions jurisdiction a.city_id g.cities) area g.areas
    else false

elem-append : (x : String) (xs ys : List String) → elem x (xs ++ ys) ≡ elem x xs || elem x ys
elem-append x [] ys = refl
elem-append x (y ∷ xs) ys = ground (arith, elem-append x xs ys)

elem-areas_of_cities :
    (cities : List String) (area : String) (areas : List Area)
    → elem area (areas_of_cities cities areas) ≡ any_area (λ a. elem a.city_id cities) area areas
unfolding areas_of_cities
elem-areas_of_cities cities area [] = refl
elem-areas_of_cities cities area (a ∷ areas) =
    ground (arith, elem-areas_of_cities cities area areas)

elem-join_area :
    (regions : List String) (area : String) (a : Area) (cities : List City)
    → elem area (join_area regions a cities)
      ≡ (a.area_id == area) && in_regions regions a.city_id cities
unfolding join_area
elem-join_area regions area a [] = ground arith
elem-join_area regions area a (c ∷ cities) = ground (arith, elem-join_area regions area a cities)

elem-areas_of_regions :
    (regions : List String) (area : String) (cities : List City) (areas : List Area)
    → elem area (areas_of_regions regions cities areas)
      ≡ any_area (λ a. in_regions regions a.city_id cities) area areas
unfolding areas_of_regions
elem-areas_of_regions regions area cities [] = refl
elem-areas_of_regions regions area cities (a ∷ areas) = ground (
  arith,
  elem-append area (join_area regions a cities) (areas_of_regions regions cities areas),
  elem-join_area regions area a cities,
  elem-areas_of_regions regions area cities areas,
)

pub elem-resolve_area_ids :
    (role : String) (jurisdiction : List String) (g : Geography) (area : String)
    → elem area (resolve_area_ids role jurisdiction g) ≡ in_scope g role jurisdiction area
unfolding resolve_area_ids in_scope
elem-resolve_area_ids role jurisdiction g area = ground (
  arith,
  elem-areas_of_cities jurisdiction area g.areas,
  elem-areas_of_regions jurisdiction area g.cities g.areas,
)

-- The scope depends on the members of the jurisdiction only.
module _ (j k : List String) (same : (x : String) → elem x j ≡ elem x k) where
  in_regions-same :
      (city : String) (cities : List City) → in_regions j city cities ≡ in_regions k city cities
  in_regions-same city [] = refl
  in_regions-same city (c ∷ cities) = ground (arith, same c.region_id, in_regions-same city cities)

  any_area-same :
      (p q : Area → Bool) (area : String) (areas : List Area)
      → ((a : Area) → p a ≡ q a)
      → any_area p area areas ≡ any_area q area areas
  any_area-same p q area [] h = refl
  any_area-same p q area (a ∷ areas) h = ground (arith, h a, any_area-same p q area areas h)

  pub in_scope-same :
      (g : Geography) (role area : String) → in_scope g role j area ≡ in_scope g role k area
  unfolding in_scope
  in_scope-same g role area = ground (
    arith,
    same area,
    any_area-same (λ a. elem a.city_id j) (λ a. elem a.city_id k) area g.areas
        (λ a. same a.city_id),
    any_area-same (λ a. in_regions j a.city_id g.cities) (λ a. in_regions k a.city_id g.cities) area
        g.areas (λ a. in_regions-same a.city_id g.cities),
  )
