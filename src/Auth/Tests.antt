-- ===== src/Auth/Tests.antt =====
-- The theorems about the auth service at concrete inputs.
use flood_monitoring_and_man.Common.{[], ◌∷◌, none, some, ◌≡◌, refl, string_eq}
use flood_monitoring_and_man.Auth.Tables.{User, Database, fetch_user_by_email, fetch_refresh_token}
use flood_monitoring_and_man.Auth.Security.{Claims}
use flood_monitoring_and_man.Auth.Api.{
  http_error, CreateUser, is_valid_role, logout, refresh, jti_of, log_in, add_user, serve_all,
}
use flood_monitoring_and_man.Auth.Revocation.{refresh-logout}
use flood_monitoring_and_man.Auth.Accounts.{AreAccounts, serve_all-AreAccounts}
use flood_monitoring_and_man.Auth.Samples.{plain, plain_laws, at}

abbrev ann : User
ann = record {
  user_id = "u";
  email = "ann@example.org";
  password_hash = "secret";
  role = "area_manager";
  jurisdiction = "a" ∷ [];
}

abbrev database : Database
database = record { users = ann ∷ []; refresh_tokens = [] }

abbrev claims : Claims
claims = record {
  sub = some "u";
  email = "ann@example.org";
  role = "area_manager";
  jurisdiction = "a" ∷ [];
  jti = some "j";
  iat = 10;
  exp = 110;
}

-- After the login of `claims`.
abbrev logged_in : Database
logged_in = record database {
  refresh_tokens =
      record { jti = "j"; user_id = "u"; issued_at = 10; expires_at = 110; revoked_at = none } ∷ [];
}

refresh-logout_example :
    refresh plain 5 100 claims (at 30) (
      serve_all plain 5 100
        (log_in "ann@example.org" "secret" (at 25) ∷ [])
        (logout plain claims (at 20) logged_in).0)
    ≡ http_error 401
unfolding jti_of fetch_refresh_token
refresh-logout_example =
    refresh-logout plain 5 100 plain_laws claims "j" (at 20) (at 30)
      (log_in "ann@example.org" "secret" (at 25) ∷ []) logged_in claims
      (record { jti = "j"; user_id = "u"; issued_at = 10; expires_at = 110; revoked_at = none })
      refl refl

abbrev bob : CreateUser
bob = record {
  email = "ann@example.org";
  password = "other";
  role = "city_manager";
  jurisdiction = [];
}

serve_all-AreAccounts_example :
    AreAccounts (serve_all plain 5 100 (add_user bob (at 1) ∷ []) database).users
unfolding fetch_user_by_email is_valid_role
serve_all-AreAccounts_example =
    serve_all-AreAccounts plain 5 100 (add_user bob (at 1) ∷ []) database (refl, (refl, tt))
