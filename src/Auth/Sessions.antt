-- ===== src/Auth/Sessions.antt =====
-- A session from the login to the next access token.
use flood_monitoring_and_man.Common.{
  ℕ, ◌+◌, ◌≤◌, String, [], ◌∷◌, none, some, true, ◌≡◌, refl, arith, string_eq, eq_iff, ap, ◌∙◌,
}
use flood_monitoring_and_man.Auth.Tables.{
  User, RefreshToken, Database, fetch_user_by_email, fetch_user_by_id, fetch_refresh_token,
  store_refresh_token,
}
use flood_monitoring_and_man.Auth.Security.{
  Claims, Libraries, LibrariesLaws, UserInfo, row_to_user_info, build_claims,
}
use flood_monitoring_and_man.Auth.Revocation.{fetch_refresh_token-append}
use flood_monitoring_and_man.Auth.Api.{
  ok, Fresh, login, refresh, jti_of, user_of, tokens_of, create_access_token, create_refresh_token,
}

module _ {T : Type 0} (l : Libraries T) (access_ttl_s refresh_ttl_s : ℕ) where
  pub fetch_refresh_token-store :
      (jti user_id : String) (now : ℕ) (db : Database)
      → fetch_refresh_token jti db.refresh_tokens ≡ none
      → fetch_refresh_token jti
          (store_refresh_token jti user_id refresh_ttl_s now db).refresh_tokens
        ≡ some (record {
          jti = jti;
          user_id = user_id;
          issued_at = now;
          expires_at = now + refresh_ttl_s;
          revoked_at = none;
        })
  unfolding store_refresh_token fetch_refresh_token
  fetch_refresh_token-store jti user_id now db fresh = ground (
    arith,
    eq_iff jti jti,
    fetch_refresh_token-append jti db.refresh_tokens (
        record {
          jti = jti;
          user_id = user_id;
          issued_at = now;
          expires_at = now + refresh_ttl_s;
          revoked_at = none;
        }
        ∷ []),
  )

  pub jti_of-refresh_token :
      (laws : LibrariesLaws l) (user : UserInfo) (jti : String) (now now' : ℕ)
      → l.parse_uuid jti ≡ some jti
      → now' ≤ now + refresh_ttl_s
      → jti_of l now' (create_refresh_token l access_ttl_s refresh_ttl_s user jti now)
        ≡ some (build_claims user jti refresh_ttl_s now, jti)
  unfolding jti_of create_refresh_token build_claims
  jti_of-refresh_token laws user jti now now' uuid in_time = ground (
    arith,
    uuid,
    laws.decode-encode
        (record {
          sub = some user.user_id;
          email = user.email;
          role = user.role;
          jurisdiction = user.jurisdiction;
          jti = some jti;
          iat = now;
          exp = now + refresh_ttl_s;
        })
        now' in_time,
  )

  user_of-claims :
      (row : User) (jti : String) (ttl_s now : ℕ) (db : Database)
      → fetch_user_by_id row.user_id db.users ≡ some row
      → l.parse_uuid row.user_id ≡ some row.user_id
      → user_of l (build_claims (row_to_user_info row) jti ttl_s now) db ≡ some row
  unfolding user_of build_claims row_to_user_info
  user_of-claims row jti ttl_s now db by_id uuid = ground (arith, uuid, by_id)

  refresh-live :
      (token : T) (f : Fresh) (db : Database) (claims : Claims) (jti : String) (row : User)
      (t : RefreshToken)
      → jti_of l f.now token ≡ some (claims, jti)
      → fetch_refresh_token jti db.refresh_tokens ≡ some t
      → t.revoked_at ≡ none
      → user_of l claims db ≡ some row
      → refresh l access_ttl_s refresh_ttl_s token f db
        ≡ ok (record {
          access_token = create_access_token l access_ttl_s refresh_ttl_s (row_to_user_info row) f;
          refresh_token = token;
        })
  unfolding refresh
  refresh-live token f db claims jti row t named stored live user =
      ground (arith, named, stored, live, user)

  store-users :
      (jti user_id : String) (now : ℕ) (db : Database)
      → (store_refresh_token jti user_id refresh_ttl_s now db).users ≡ db.users
  unfolding store_refresh_token
  store-users jti user_id now db = refl

  -- A user with the right password logs in, and until the refresh token's time to live is over, its
  -- refresh gives a new access token of the same user together with the same refresh token, if the
  -- UUID drawn for the login is new and UUIDs read back as they were.
  pub refresh-login :
      (laws : LibrariesLaws l) (email password : String) (f f' : Fresh) (db : Database) (row : User)
      → fetch_user_by_email email db.users ≡ some row
      → fetch_user_by_id row.user_id db.users ≡ some row
      → l.verify password row.password_hash ≡ true
      → l.parse_uuid f.uuid ≡ some f.uuid
      → l.parse_uuid row.user_id ≡ some row.user_id
      → fetch_refresh_token f.uuid db.refresh_tokens ≡ none
      → f'.now ≤ f.now + refresh_ttl_s
      → let (db', reply) = login l access_ttl_s refresh_ttl_s email password f db in
        let tokens = tokens_of l access_ttl_s refresh_ttl_s row f in
        (reply ≡ ok tokens)
        × (refresh l access_ttl_s refresh_ttl_s tokens.refresh_token f' db'
            ≡ ok (record {
              access_token =
                  create_access_token l access_ttl_s refresh_ttl_s (row_to_user_info row) f';
              refresh_token = tokens.refresh_token;
            }))
  unfolding login
  refresh-login laws email password f f' db row known by_id right uuid user_uuid fresh in_time =
      let tokens = tokens_of l access_ttl_s refresh_ttl_s row f in
      let claims = build_claims (row_to_user_info row) f.uuid refresh_ttl_s f.now in
      let db' = store_refresh_token f.uuid row.user_id refresh_ttl_s f.now db in
      let read : jti_of l f'.now tokens.refresh_token ≡ some (claims, f.uuid) =
        jti_of-refresh_token laws (row_to_user_info row) f.uuid f.now f'.now uuid in_time in
      (
        ground (arith, known, right),
        rw (known, right)
            (refresh-live tokens.refresh_token f' db' claims f.uuid row _ read
              (fetch_refresh_token-store f.uuid row.user_id f.now db fresh) refl
              (user_of-claims row f.uuid refresh_ttl_s f.now db'
                (ap (fetch_user_by_id row.user_id) (store-users f.uuid row.user_id f.now db)
                  ∙ by_id)
                user_uuid)),
      )
