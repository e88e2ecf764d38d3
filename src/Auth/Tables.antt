-- ===== src/Auth/Tables.antt =====
-- The tables opdb.app_user and opdb.refresh_token (infra/postgres/init.sql) and the private helpers of
-- services/auth-service/src/auth_service/api.py that query them. Ids are UUIDs in one spelling.
use flood_monitoring_and_man.Common.{
  ℕ, ◌+◌, String, List, [], ◌∷◌, ◌++◌, Option, none, some, ◌==◌, string_eq, if◌then◌else◌,
}

pub record User : Type 0 where
  pub user_id : String
  pub email : String
  pub password_hash : String
  pub role : String
  pub jurisdiction : List String

pub record RefreshToken : Type 0 where
  pub jti : String
  pub user_id : String
  pub issued_at : ℕ
  pub expires_at : ℕ
  pub revoked_at : Option ℕ

pub record Database : Type 0 where
  pub users : List User
  pub refresh_tokens : List RefreshToken

unfoldable pub fetch_user_by_email : String → List User → Option User
fetch_user_by_email email [] = none
fetch_user_by_email email (u ∷ us) =
    if u.email == email then some u else fetch_user_by_email email us

unfoldable pub fetch_user_by_id : String → List User → Option User
fetch_user_by_id id [] = none
fetch_user_by_id id (u ∷ us) = if u.user_id == id then some u else fetch_user_by_id id us

unfoldable pub fetch_refresh_token : String → List RefreshToken → Option RefreshToken
fetch_refresh_token jti [] = none
fetch_refresh_token jti (t ∷ ts) = if t.jti == jti then some t else fetch_refresh_token jti ts

unfoldable pub store_refresh_token : String → String → ℕ → ℕ → Database → Database
store_refresh_token jti user_id ttl_s now db = record db {
  refresh_tokens =
      db.refresh_tokens
      ++ record {
        jti = jti;
        user_id = user_id;
        issued_at = now;
        expires_at = now + ttl_s;
        revoked_at = none;
      }
        ∷ [];
}

-- `revoked_at IS NULL` in the WHERE clause: the first time of a revocation stays.
unfoldable pub revoke_row : ℕ → RefreshToken → RefreshToken
revoke_row now t = elim t.revoked_at [ none ↦ record t { revoked_at = some now } | some at ↦ t ]

-- What `_revoke_refresh_token` does to the table; jti is the primary key, so the first row found is the
-- only one. The caller uses the result for a log line only.
unfoldable pub revoke_refresh_token : String → ℕ → List RefreshToken → List RefreshToken
unfolding revoke_row
revoke_refresh_token jti now [] = []
revoke_refresh_token jti now (t ∷ ts) =
    let rest = revoke_refresh_token jti now ts in
    if t.jti == jti then revoke_row now t ∷ ts else t ∷ rest
