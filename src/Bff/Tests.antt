-- ===== src/Bff/Tests.antt =====
-- The theorems about the dashboard's backend at concrete inputs.
use flood_monitoring_and_man.Common.{
  ℕ, String, [], not, ◌&&◌, ◌∷◌, none, some, ◌≡◌, refl, leb, if◌then◌else◌,
}
use flood_monitoring_and_man.Auth.Api.{ok, http_error, is_valid_role}
use flood_monitoring_and_man.Bff.Scope.{Geography, UserClaims, get_current_user}
use flood_monitoring_and_man.Bff.Authority.{in_scope}
use flood_monitoring_and_man.Bff.Views.{with_user, get_telemetry, area_telemetry}
use flood_monitoring_and_man.Bff.Requests.{cache_after, area_telemetry-in_scope}

-- A text for each number.
abbrev decimal : ℕ → String
decimal n = if leb n 9 then "0" else "10"

abbrev one_city : Geography
one_city = record {
  cities = record { city_id = "c"; region_id = "r" } ∷ [];
  areas = record { area_id = "a"; city_id = "c" } ∷ record { area_id = "b"; city_id = "d" } ∷ [];
}

abbrev manager : UserClaims
manager = record {
  sub = "u";
  email = "ann@example.org";
  role = "regional_manager";
  jurisdiction = "r" ∷ [];
}

area_telemetry-in_scope_example :
    with_user
      (get_current_user
        (λ xs. xs)
        60
        (some manager)
        5
        6
        one_city
        (cache_after
          (λ xs. xs)
          60
          one_city
          (record { claims = some manager; now = 1; set_at = 2 } ∷ [])
          [])).1
      (area_telemetry {F = ℕ} {D = ℕ} leb decimal (λ rows. rows) "b" none none 10 [])
    ≡ (if not (leb 1 10 && leb 10 5000)
        then http_error 422
        else if in_scope one_city "regional_manager" ("r" ∷ []) "b"
        then ok (get_telemetry leb decimal (λ rows. rows) ("b" ∷ []) none none 10 [])
        else http_error 403)
unfolding is_valid_role
area_telemetry-in_scope_example =
    area_telemetry-in_scope (λ xs. xs) 60 one_city (λ x xs. refl) leb decimal (λ rows. rows)
      (record { claims = some manager; now = 1; set_at = 2 } ∷ []) manager 5 6 "b" none none 10 []
      refl refl
