-- ===== src/Bff/TokenTests.antt =====
-- The theorems about the login and the dashboard at concrete inputs. A header is a scheme with
-- a token.
use flood_monitoring_and_man.Common.{
  ℕ, String, [], ◌∷◌, Option, none, some, ◌≡◌, refl, arith, ◌==◌, string_eq, leb, if◌then◌else◌,
}
use flood_monitoring_and_man.Auth.Tables.{User, Database, fetch_user_by_email, fetch_refresh_token}
use flood_monitoring_and_man.Auth.Security.{Claims, row_to_user_info, build_claims}
use flood_monitoring_and_man.Auth.Api.{
  ok, http_error, is_valid_role, login, logout, refresh, serve_all, tokens_of, log_in,
  create_access_token, create_refresh_token,
}
use flood_monitoring_and_man.Auth.Samples.{plain, plain_laws, at}
use flood_monitoring_and_man.Bff.Scope.{Geography}
use flood_monitoring_and_man.Bff.Token.{proxy_login}
use flood_monitoring_and_man.Bff.Token.Login.{
  answer_to, answer_for, answer_to-login, answer_to-logout,
}

abbrev ann : User
ann = record {
  user_id = "u";
  email = "ann@example.org";
  password_hash = "secret";
  role = "city_manager";
  jurisdiction = "c" ∷ [];
}

abbrev database : Database
database = record { users = ann ∷ []; refresh_tokens = [] }

-- A text for each number.
abbrev decimal : ℕ → String
decimal n = if leb n 9 then "0" else "10"

abbrev two_areas : Geography
two_areas = record {
  cities = record { city_id = "c"; region_id = "r" } ∷ [];
  areas = record { area_id = "a"; city_id = "c" } ∷ record { area_id = "b"; city_id = "d" } ∷ [];
}

abbrev header : (String × Option Claims) → String × Option Claims
header h = h

abbrev lower : String → String
lower s = if s == "Bearer" then "bearer" else s

abbrev claims : String → ℕ → Claims
claims jti exp = record {
  sub = some "u";
  email = "ann@example.org";
  role = "city_manager";
  jurisdiction = "c" ∷ [];
  jti = some jti;
  iat = 10;
  exp = exp;
}

answer_to-login_example :
    (proxy_login (some (login plain 5 100 "ann@example.org" "secret" (at 10) database).1)
      ≡ ok (tokens_of plain 5 100 ann (at 10)))
    × (answer_to plain plain_laws header lower
          (λ xs. xs)
          60
          two_areas
          (λ x xs. refl)
          {F = ℕ}
          leb
          decimal
          (λ rows. rows)
          none
          none
          10
          []
          ("Bearer", some (claims "k" 15))
          12
          1
          2
          []
          "a"
        ≡ answer_for plain plain_laws header lower
            (λ xs. xs)
            60
            two_areas
            (λ x xs. refl)
            leb
            decimal
            (λ rows. rows)
            none
            none
            10
            []
            ann
            "a")
unfolding fetch_user_by_email is_valid_role create_access_token row_to_user_info build_claims
answer_to-login_example =
    answer_to-login plain plain_laws header lower (λ xs. xs) 60 two_areas (λ x xs. refl) leb decimal
      (λ rows. rows) none none 10 [] 5 100 "ann@example.org" "secret" (at 10) database ann
      ("Bearer", some (claims "k" 15)) 12 1 2 [] "a" refl refl refl refl (omega arith) (refl, refl)

answer_to-logout_example :
    (refresh plain 5 100 (tokens_of plain 5 100 ann (at 10)).refresh_token (at 50) (
        serve_all plain 5 100
          (log_in "ann@example.org" "secret" (at 25) ∷ [])
          (logout plain
            (tokens_of plain 5 100 ann (at 10)).refresh_token
            (at 20)
            (login plain 5 100 "ann@example.org" "secret" (at 10) database).0).0)
      ≡ http_error 401)
    × (answer_to plain plain_laws header lower
          (λ xs. xs)
          60
          two_areas
          (λ x xs. refl)
          {F = ℕ}
          leb
          decimal
          (λ rows. rows)
          none
          none
          10
          []
          ("Bearer", some (claims "j" 110))
          50
          1
          2
          []
          "a"
        ≡ answer_for plain plain_laws header lower
            (λ xs. xs)
            60
            two_areas
            (λ x xs. refl)
            leb
            decimal
            (λ rows. rows)
            none
            none
            10
            []
            ann
            "a")
unfolding fetch_user_by_email fetch_refresh_token is_valid_role create_refresh_token
    row_to_user_info build_claims
answer_to-logout_example =
    answer_to-logout plain plain_laws header lower (λ xs. xs) 60 two_areas (λ x xs. refl) leb
      decimal (λ rows. rows) none none 10 [] 5 100 "ann@example.org" "secret" (at 10) (at 20)
      (at 50) database ann ("Bearer", some (claims "j" 110)) 1 2 [] "a"
      (log_in "ann@example.org" "secret" (at 25) ∷ []) refl refl refl refl refl refl (omega arith)
      (omega arith) (refl, refl)
