-- ===== src/Bff/Scope.antt =====
-- services/dashboard-bff/src/dashboard_bff/auth.py: from the claims of a token to the areas of a user,
-- with the cache of resolved scopes. `_scope_cache` is a variable of the module.
use flood_monitoring_and_man.Common.{
  ℕ, ◌+◌, String, List, [], ◌∷◌, ◌++◌, Option, none, some, Bool, true, false, ◌&&◌, ◌||◌, ◌==◌, Eq,
  string_eq, pair_eq, ltb, if◌then◌else◌, ◌≡◌, ◌↔◌, arith,
}
use flood_monitoring_and_man.Common.Dict.{Dict, lookup, insert, remove}
use flood_monitoring_and_man.Auth.Api.{Reply, ok, http_error, is_valid_role}

abbrev pub beq_list : List String → List String → Bool
beq_list [] [] = true
beq_list [] (y ∷ ys) = false
beq_list (x ∷ xs) [] = false
beq_list (x ∷ xs) (y ∷ ys) = (x == y) && beq_list xs ys

pub beq_list_iff : (xs ys : List String) → (beq_list xs ys ≡ true) ↔ (xs ≡ ys)
beq_list_iff [] [] = ground arith
beq_list_iff [] (y ∷ ys) = ground arith
beq_list_iff (x ∷ xs) [] = ground arith
beq_list_iff (x ∷ xs) (y ∷ ys) = ground (arith, string_eq.beq_iff x y, beq_list_iff xs ys)

instance abbrev pub list_eq : Eq (List String)
list_eq = record { beq = beq_list; beq_iff = beq_list_iff }

-- `x in xs`, and `= ANY($1)` in SQL.
abbrev pub elem : String → List String → Bool
elem x [] = false
elem x (y ∷ ys) = (y == x) || elem x ys

-- Rows of opdb.city and opdb.area (infra/postgres/init.sql), of the columns that are read.
pub record City : Type 0 where
  pub city_id : String
  pub region_id : String

pub record Area : Type 0 where
  pub area_id : String
  pub city_id : String

pub record Geography : Type 0 where
  pub cities : List City
  pub areas : List Area

-- SELECT area_id FROM opdb.area WHERE city_id = ANY($1)
unfoldable pub areas_of_cities : List String → List Area → List String
areas_of_cities cities [] = []
areas_of_cities cities (a ∷ areas) =
    let rest = areas_of_cities cities areas in
    if elem a.city_id cities then a.area_id ∷ rest else rest

-- One area joined with the cities: as often as a city of its id is in one of the regions.
unfoldable pub join_area : List String → Area → List City → List String
join_area regions a [] = []
join_area regions a (c ∷ cities) =
    let rest = join_area regions a cities in
    if (a.city_id == c.city_id) && elem c.region_id regions then a.area_id ∷ rest else rest

unfoldable pub areas_of_regions : List String → List City → List Area → List String
areas_of_regions regions cities [] = []
areas_of_regions regions cities (a ∷ areas) =
    join_area regions a cities ++ areas_of_regions regions cities areas

unfoldable pub resolve_area_ids : String → List String → Geography → List String
resolve_area_ids role jurisdiction g =
    if role == "area_manager"
    then jurisdiction
    else if role == "city_manager"
    then areas_of_cities jurisdiction g.areas
    else if role == "regional_manager"
    then areas_of_regions jurisdiction g.cities g.areas
    else []

abbrev pub ScopeKey : Type 0
ScopeKey = String × (String × List String)

abbrev pub ScopeCache : Type 0
ScopeCache = Dict ScopeKey (List String × ℕ)

-- What the four claims give, "" or [] where one is absent.
pub record UserClaims : Type 0 where
  pub sub : String
  pub email : String
  pub role : String
  pub jurisdiction : List String

pub record UserContext : Type 0 where
  pub user_id : String
  pub email : String
  pub role : String
  pub jurisdiction : List String
  pub area_ids : List String

-- `sorted` is Python's on lists of texts, and `ttl_s` is SCOPE_CACHE_TTL_S.
module _ (sorted : List String → List String) (ttl_s : ℕ) where
  unfoldable pub cache_key : UserClaims → ScopeKey
  cache_key c = (c.sub, (c.role, sorted c.jurisdiction))

  abbrev pub fresh_entry :
      ScopeKey → ℕ → ScopeCache → Option (List String × ℕ) → ScopeCache × Option (List String)
  fresh_entry key now cache none = (cache, none)
  fresh_entry key now cache (some (area_ids, expires_at)) =
      if ltb expires_at now then (remove key cache, none) else (cache, some area_ids)

  -- An entry that is too old is deleted.
  unfoldable pub get_cached_scope : UserClaims → ℕ → ScopeCache → ScopeCache × Option (List String)
  unfolding cache_key
  get_cached_scope c now cache = fresh_entry (cache_key c) now cache (lookup (cache_key c) cache)

  unfoldable pub set_cached_scope : UserClaims → ℕ → List String → ScopeCache → ScopeCache
  unfolding cache_key
  set_cached_scope c now area_ids cache = insert (cache_key c) (area_ids, now + ttl_s) cache

  abbrev pub serve_scope :
      UserClaims → ℕ → Geography → ScopeCache × Option (List String) → ScopeCache × List String
  serve_scope c set_at g (cache, some area_ids) = (cache, area_ids)
  serve_scope c set_at g (cache, none) =
      let area_ids = resolve_area_ids c.role c.jurisdiction g in
      (set_cached_scope c set_at area_ids cache, area_ids)

  -- Step 3 of `get_current_user`.
  unfoldable pub scope_of : UserClaims → ℕ → ℕ → Geography → ScopeCache → ScopeCache × List String
  unfolding get_cached_scope set_cached_scope resolve_area_ids
  scope_of c now set_at g cache = serve_scope c set_at g (get_cached_scope c now cache)

  -- `get_current_user`: `none` is a header or a token that is refused.
  unfoldable pub get_current_user :
      Option UserClaims → ℕ → ℕ → Geography → ScopeCache → ScopeCache × Reply UserContext
  unfolding scope_of is_valid_role
  get_current_user none now set_at g cache = (cache, http_error 401)
  get_current_user (some c) now set_at g cache =
      let (cache', area_ids) = scope_of c now set_at g cache in
      if (c.sub == "") || (c.role == "")
      then (cache, http_error 401)
      else if is_valid_role c.role
      then (
        cache',
        ok (record {
          user_id = c.sub;
          email = c.email;
          role = c.role;
          jurisdiction = c.jurisdiction;
          area_ids = area_ids;
        }),
      )
      else (cache, http_error 403)
