-- ===== src/Bff/Token/Login.antt =====
-- From the login at the auth service to the areas that the dashboard shows.
use flood_monitoring_and_man.Common.{
  ℕ, ◌+◌, ◌≤◌, String, List, [], ◌∷◌, Option, none, some, Bool, true, false, not, ◌&&◌, leb, ◌==◌,
  string_eq, if◌then◌else◌, ◌≡◌, refl, eq_iff,
}
use flood_monitoring_and_man.Auth.Tables.{
  User, Database, fetch_user_by_email, fetch_refresh_token, store_refresh_token,
}
use flood_monitoring_and_man.Auth.Security.{
  Claims, Libraries, LibrariesLaws, row_to_user_info, build_claims,
}
use flood_monitoring_and_man.Auth.Api.{
  Reply, ok, http_error, Fresh, Request, is_valid_role, login, logout, refresh, serve_all,
  tokens_of, create_access_token, create_refresh_token,
}
use flood_monitoring_and_man.Auth.Revocation.{refresh-logout}
use flood_monitoring_and_man.Auth.Sessions.{fetch_refresh_token-store, jti_of-refresh_token}
use flood_monitoring_and_man.Telemetry.Rows.{Row}
use flood_monitoring_and_man.Bff.Scope.{elem, Geography, UserClaims}
use flood_monitoring_and_man.Bff.Authority.{in_scope}
use flood_monitoring_and_man.Bff.Views.{with_user, get_telemetry, area_telemetry}
use flood_monitoring_and_man.Bff.Requests.{Visit, cache_after, area_telemetry-in_scope}
use flood_monitoring_and_man.Bff.Token.{
  user_claims, bearer_token, claims_of_token, claims_of_header, authorize, proxy_login,
}

-- What the claims of a user's row mean to the dashboard.
abbrev pub claims_of_row : User → UserClaims
claims_of_row row = record {
  sub = row.user_id;
  email = row.email;
  role = row.role;
  jurisdiction = row.jurisdiction;
}

module _ {T H : Type 0} (l : Libraries T) (laws : LibrariesLaws l)
    (partition : H → String × Option T) (lower : String → String) where
  -- The header names the scheme and carries the token.
  abbrev pub Carries : H → T → Type 0
  Carries header token =
      (lower (partition header).0 ≡ "bearer") × ((partition header).1 ≡ some token)

  claims_of_header-encode :
      (header : H) (wall : ℕ) (row : User) (jti : String) (ttl_s now : ℕ)
      → wall ≤ now + ttl_s
      → Carries header (l.encode (build_claims (row_to_user_info row) jti ttl_s now))
      → claims_of_header l partition lower wall header ≡ some (claims_of_row row)
  unfolding claims_of_header bearer_token user_claims build_claims row_to_user_info
  claims_of_header-encode header wall row jti ttl_s now in_time carried =
      let c : Claims = record {
        sub = some row.user_id;
        email = row.email;
        role = row.role;
        jurisdiction = row.jurisdiction;
        jti = some jti;
        iat = now;
        exp = now + ttl_s;
      } in
      let read : l.decode wall (l.encode c) ≡ some c = laws.decode-encode c wall in_time in
      let scheme = (eq_iff (lower (partition header).0) "bearer").1 carried.0 in
      rw (claims_of_token, scheme, carried.1, read) refl

  module _ (sorted : List String → List String) (scope_ttl_s : ℕ) (g : Geography)
      (members : (x : String) (xs : List String) → elem x (sorted xs) ≡ elem x xs) {F D : Type 0}
      (le : D → D → Bool) (str_of : F → String) (order_by : List (Row F D) → List (Row F D))
      (start end : Option D) (limit : ℕ) (rows : List (Row F D)) where
    -- The telemetry of an area, asked for with a header after other requests.
    abbrev pub answer_to : H → ℕ → ℕ → ℕ → List Visit → String → Reply (List (Row String D))
    answer_to header wall now set_at visits area =
        with_user
          (authorize l partition lower sorted scope_ttl_s wall header now set_at g
            (cache_after sorted scope_ttl_s g visits [])).1
          (area_telemetry le str_of order_by area start end limit rows)

    -- What the limit and the role and the jurisdiction of a user's row allow.
    abbrev pub answer_for : User → String → Reply (List (Row String D))
    answer_for row area =
        if not (leb 1 limit && leb limit 5000)
        then http_error 422
        else if in_scope g row.role row.jurisdiction area
        then ok (get_telemetry le str_of order_by (area ∷ []) start end limit rows)
        else http_error 403

    answer_to-encode :
        (row : User) (jti : String) (ttl_s issued_at : ℕ) (header : H) (wall now set_at : ℕ)
        (visits : List Visit) (area : String)
        → (row.user_id == "") ≡ false
        → is_valid_role row.role ≡ true
        → wall ≤ issued_at + ttl_s
        → Carries header (l.encode (build_claims (row_to_user_info row) jti ttl_s issued_at))
        → answer_to header wall now set_at visits area ≡ answer_for row area
    unfolding authorize
    answer_to-encode row jti ttl_s issued_at header wall now set_at visits area named valid in_time
          carried =
        rw (claims_of_header-encode header wall row jti ttl_s issued_at in_time carried) (
          area_telemetry-in_scope sorted scope_ttl_s g members le str_of order_by visits
            (claims_of_row row) now set_at area start end limit rows named valid)

    module _ (access_ttl_s refresh_ttl_s : ℕ) where
      -- A user with the right password, a nonempty id and a valid role who logs in through the
      -- dashboard gets an access token, and a request that carries it until its time to live is over
      -- is answered with 422 if its limit is not from 1 to 5000, else with the telemetry of the area
      -- asked for, its numbers as texts, if the area is in the scope that the role and the jurisdiction
      -- of the user's row mean, and 403 otherwise, whatever requests filled the cache of scopes; areas
      -- and cities stay as they are, and `sorted` keeps the members of a list.
      pub answer_to-login :
          (email password : String) (f : Fresh) (db : Database) (row : User) (header : H)
          (wall now set_at : ℕ) (visits : List Visit) (area : String)
          → fetch_user_by_email email db.users ≡ some row
          → l.verify password row.password_hash ≡ true
          → (row.user_id == "") ≡ false
          → is_valid_role row.role ≡ true
          → wall ≤ f.now + access_ttl_s
          → Carries header (tokens_of l access_ttl_s refresh_ttl_s row f).access_token
          → (proxy_login (some (login l access_ttl_s refresh_ttl_s email password f db).1)
              ≡ ok (tokens_of l access_ttl_s refresh_ttl_s row f))
            × (answer_to header wall now set_at visits area ≡ answer_for row area)
      unfolding proxy_login login create_access_token
      answer_to-login email password f db row header wall now set_at visits area known right named
            valid in_time carried =
          (
            rw (known, right) refl,
            answer_to-encode row f.access_jti access_ttl_s f.now header wall now set_at visits area
                named valid in_time carried,
          )

      -- A refresh token works at the dashboard as an access token does, and its logout does not end
      -- that: after the login of a user with the right password, a nonempty id and a valid role, after
      -- the logout of the refresh token and any further requests to the auth service, a refresh with it
      -- is refused with 401, and until its time to live is over a request to the dashboard that carries
      -- it is answered as its limit and the scope of the user's row say.
      pub answer_to-logout :
          (email password : String) (f out again : Fresh) (db : Database) (row : User) (header : H)
          (now set_at : ℕ) (visits : List Visit) (area : String) (qs : List (Request T))
          → fetch_user_by_email email db.users ≡ some row
          → l.verify password row.password_hash ≡ true
          → (row.user_id == "") ≡ false
          → is_valid_role row.role ≡ true
          → l.parse_uuid f.uuid ≡ some f.uuid
          → fetch_refresh_token f.uuid db.refresh_tokens ≡ none
          → out.now ≤ f.now + refresh_ttl_s
          → again.now ≤ f.now + refresh_ttl_s
          → Carries header (tokens_of l access_ttl_s refresh_ttl_s row f).refresh_token
          → let token = (tokens_of l access_ttl_s refresh_ttl_s row f).refresh_token in
            let db' = (login l access_ttl_s refresh_ttl_s email password f db).0 in
            (refresh l access_ttl_s refresh_ttl_s token again
                (serve_all l access_ttl_s refresh_ttl_s qs (logout l token out db').0)
              ≡ http_error 401)
            × (answer_to header again.now now set_at visits area ≡ answer_for row area)
      unfolding login create_refresh_token
      answer_to-logout email password f out again db row header now set_at visits area qs known
            right named valid uuid unused out_in_time in_time carried =
          (
            rw (known, right)
                (refresh-logout l access_ttl_s refresh_ttl_s laws
                  (create_refresh_token l access_ttl_s refresh_ttl_s (row_to_user_info row) f.uuid
                    f.now)
                  f.uuid out again qs
                  (store_refresh_token f.uuid row.user_id refresh_ttl_s f.now db)
                  (build_claims (row_to_user_info row) f.uuid refresh_ttl_s f.now) _
                  (jti_of-refresh_token l access_ttl_s refresh_ttl_s laws (row_to_user_info row)
                    f.uuid f.now out.now uuid out_in_time)
                  (fetch_refresh_token-store l access_ttl_s refresh_ttl_s f.uuid row.user_id f.now
                    db unused)),
            answer_to-encode row f.uuid refresh_ttl_s f.now header again.now now set_at visits area
                named valid in_time carried,
          )
